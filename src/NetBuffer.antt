-- ===== src/NetBuffer.antt =====
-- include/asrt/netbuffer.hpp: the views of a buffer. MutableBufferView and ConstBufferView have the
-- same code and share this model, in which a pointer is an index into a memory of bytes.
pub mod Contents
use asrt.Base.{
  ℕ, ◌+◌, ◌-◌, ◌*◌, ◌%◌, ◌^◌, min, Bool, Option, none, some, List, ltb, leb, ◌==◌, if◌then◌else◌,
  take, drop,
}

pub record BufferView : Type 0 where
  pub start : ℕ
  pub size : ℕ

-- `size_t` is 64 bits wide.
abbrev pub size_t_range : ℕ
size_t_range = 2 ^ 64

abbrev pub dynamic_extent : ℕ
dynamic_extent = 18446744073709551615

unfoldable pub empty : BufferView → Bool
empty v = v.size == 0

-- `Advance` and `operator+=`.
unfoldable pub advance : ℕ → BufferView → BufferView
advance n v =
    let offset = if ltb n v.size then n else v.size in
    record { start = v.start + offset; size = v.size - offset }

unfoldable pub first : ℕ → BufferView → BufferView
first num_bytes v = record { start = v.start; size = min num_bytes v.size }

-- `SubView`; `none` where an assertion fails. The sum in the assertion wraps around.
unfoldable pub sub_view : ℕ → ℕ → BufferView → Option BufferView
sub_view offset count v =
    if leb offset v.size
    then (if count == dynamic_extent
        then some (record { start = v.start + offset; size = v.size - offset })
        else if leb ((offset + count) % size_t_range) v.size
        then some (record { start = v.start + offset; size = count })
        else none)
    else none

-- `make_buffer` of an array of `elements` items of `width` bytes, without and with `max_size`.
unfoldable pub make_buffer : ℕ → ℕ → ℕ → BufferView
make_buffer address elements width = record { start = address; size = elements * width }

unfoldable pub make_buffer_max : ℕ → ℕ → ℕ → ℕ → BufferView
make_buffer_max address elements width max_size = record {
  start = address;
  size = min max_size (elements * width);
}

-- The bytes that a view shows of the memory.
unfoldable pub contents : List ℕ → BufferView → List ℕ
contents memory v = take v.size (drop v.start memory)
