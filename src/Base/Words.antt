-- ===== src/Base/Words.antt =====
-- Machine words as native numbers, and the big-endian bytes of a word.
use Prim.Native.Nat.{ℕ, zero, suc, ◌+◌, ◌-◌, ◌*◌, ◌/◌, ◌%◌, ◌^◌, ◌<◌}
use mathlib.Core.Path.{◌≡◌, refl}
use mathlib.Core.List.{List, [], ◌∷◌, ◌++◌}
use native.Mathlib.Nat.{pow-suc}
use native.Mathlib.Omega.{arith}
use distributed_logger.Base.Lists.{length, length-append}

abbrev pub mod16 : ℕ
mod16 = 2 ^ 16

abbrev pub mod32 : ℕ
mod32 = 2 ^ 32

abbrev pub mod64 : ℕ
mod64 = 2 ^ 64

-- `size_t` and `uint64_t` sums and differences wrap.
abbrev pub add64 : ℕ → ℕ → ℕ
add64 a b = (a + b) % mod64

abbrev pub sub64 : ℕ → ℕ → ℕ
sub64 a b = (a + mod64 - b) % mod64

-- The `k` bytes of a word in network order, as `htobe64`, `htonl` and `htons` leave them in memory.
unfoldable pub be_bytes : ℕ → ℕ → List ℕ
be_bytes zero v = []
be_bytes (suc k) v = be_bytes k (v / 256) ++ (v % 256 ∷ [])

-- The number that bytes in network order stand for, with what was read before them.
unfoldable pub from_be_acc : ℕ → List ℕ → ℕ
from_be_acc acc [] = acc
from_be_acc acc (b ∷ bs) = from_be_acc (acc * 256 + b) bs

abbrev pub from_be : List ℕ → ℕ
from_be bs = from_be_acc 0 bs

pub length-be_bytes : (k v : ℕ) → length (be_bytes k v) ≡ k
unfolding be_bytes
length-be_bytes zero v = refl
length-be_bytes (suc k) v =
    omega (arith, length-append (be_bytes k (v / 256)) (v % 256 ∷ []), length-be_bytes k (v / 256))

from_be_acc-append :
    (acc : ℕ) (xs : List ℕ) (b : ℕ)
    → from_be_acc acc (xs ++ (b ∷ [])) ≡ from_be_acc acc xs * 256 + b
unfolding from_be_acc
from_be_acc-append acc [] b = refl
from_be_acc-append acc (x ∷ xs) b = from_be_acc-append (acc * 256 + x) xs b

-- Reading back the bytes of a word that fits gives the word.
pub from_be-be_bytes : (k v : ℕ) → v < 256 ^ k → from_be (be_bytes k v) ≡ v
unfolding be_bytes from_be_acc
from_be-be_bytes zero v h = omega arith
from_be-be_bytes (suc k) v h = omega (
  arith,
  from_be_acc-append 0 (be_bytes k (v / 256)) (v % 256),
  from_be-be_bytes k (v / 256) (omega (arith, pow-suc 256 k)),
)
