-- ===== src/Message/ByteOrder.antt =====
-- Integers in network order.
use asrt.Base.{ℕ, ◌/◌, ◌%◌, ◌^◌, ◌<◌, ◌≡◌, refl, Bool, true, false, List, [], ◌∷◌, arith}
use asrt.Message.{swap_int, to_network, to_host, to_memory, of_memory}

-- The bytes that represent `n` on the wire, the most significant one first.
abbrev pub wire : ℕ → List ℕ
wire n = n / 16777216 % 256 ∷ n / 65536 % 256 ∷ n / 256 % 256 ∷ n % 256 ∷ []

pub four :
    {a b c d e f g h : ℕ}
    → a ≡ e
    → b ≡ f
    → c ≡ g
    → d ≡ h
    → ◌≡◌ {A = List ℕ} (a ∷ b ∷ c ∷ d ∷ []) (e ∷ f ∷ g ∷ h ∷ [])
four p q r s i = p i ∷ q i ∷ r i ∷ s i ∷ []

pub to_memory-to_network :
    (big_endian : Bool) (n : ℕ)
    → n < 2 ^ 32
    → to_memory big_endian (to_network big_endian n) ≡ wire n
unfolding to_memory to_network swap_int
to_memory-to_network true n h = refl
to_memory-to_network false n h = four (omega arith) (omega arith) (omega arith) (omega arith)

pub to_host-of_memory :
    (big_endian : Bool) (n : ℕ)
    → n < 2 ^ 32
    → to_host big_endian
        (of_memory big_endian (n / 16777216 % 256) (n / 65536 % 256) (n / 256 % 256) (n % 256))
      ≡ n
unfolding of_memory to_host swap_int
to_host-of_memory true n h = omega arith
to_host-of_memory false n h = omega arith
