-- ===== src/Socket.antt =====
-- include/asrt/socket/: the sockets and their asynchronous operations.
pub mod AsyncOperation
pub mod BasicSocket
pub mod Stream
pub mod Acceptor
pub mod Packet
pub mod Address
pub mod Datagram
