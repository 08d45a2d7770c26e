-- ===== src/Base/Lists.antt =====
-- Lists measured by native numbers, and blocks of memory as lists of bytes.
use Prim.Native.Nat.{ℕ, zero, suc, ◌+◌, ◌-◌, ◌≤◌, min}
use mathlib.Core.Path.{◌≡◌, refl, sym, ap, ◌∙◌}
use mathlib.Core.List.{List, [], ◌∷◌, ◌++◌, append_assoc}
use native.Mathlib.Omega.{arith}

module _ {ℓ} {A : Type ℓ} where
  abbrev pub length : List A → ℕ
  length [] = 0
  length (x ∷ xs) = suc (length xs)

  abbrev pub take : ℕ → List A → List A
  take zero xs = []
  take (suc n) [] = []
  take (suc n) (x ∷ xs) = x ∷ take n xs

  abbrev pub drop : ℕ → List A → List A
  drop zero xs = xs
  drop (suc n) [] = []
  drop (suc n) (x ∷ xs) = drop n xs

  abbrev pub replicate : ℕ → A → List A
  replicate zero a = []
  replicate (suc n) a = a ∷ replicate n a

  abbrev pub All {κ} : (A → Type κ) → List A → Type κ
  All P [] = Unit {κ}
  All P (x ∷ xs) = P x × All P xs

  pub length-append : (xs ys : List A) → length (xs ++ ys) ≡ length xs + length ys
  length-append [] ys = omega arith
  length-append (x ∷ xs) ys = omega (arith, length-append xs ys)

  pub length-take : (n : ℕ) (xs : List A) → length (take n xs) ≡ min n (length xs)
  length-take zero xs = omega arith
  length-take (suc n) [] = omega arith
  length-take (suc n) (x ∷ xs) = omega (arith, length-take n xs)

  pub length-drop : (n : ℕ) (xs : List A) → length (drop n xs) ≡ length xs - n
  length-drop zero xs = omega arith
  length-drop (suc n) [] = omega arith
  length-drop (suc n) (x ∷ xs) = omega (arith, length-drop n xs)

  pub length-replicate : (n : ℕ) (a : A) → length (replicate n a) ≡ n
  length-replicate zero a = refl
  length-replicate (suc n) a = ap suc (length-replicate n a)

  pub take-append-drop : (n : ℕ) (xs : List A) → take n xs ++ drop n xs ≡ xs
  take-append-drop zero xs = refl
  take-append-drop (suc n) [] = refl
  take-append-drop (suc n) (x ∷ xs) = ap (◌∷◌ x) (take-append-drop n xs)

module _ {ℓ} {A : Type ℓ} where
  -- The first part of a concatenation, and what follows it.
  pub take-append : (n : ℕ) (xs ys : List A) → n ≡ length xs → take n (xs ++ ys) ≡ xs
  take-append zero [] ys e = refl
  take-append zero (x ∷ xs) ys e = absurd (omega arith)
  take-append (suc n) [] ys e = absurd (omega arith)
  take-append (suc n) (x ∷ xs) ys e = ap (◌∷◌ x) (take-append n xs ys (omega arith))

  pub drop-append : (n : ℕ) (xs ys : List A) → n ≡ length xs → drop n (xs ++ ys) ≡ ys
  drop-append zero [] ys e = refl
  drop-append zero (x ∷ xs) ys e = absurd (omega arith)
  drop-append (suc n) [] ys e = absurd (omega arith)
  drop-append (suc n) (x ∷ xs) ys e = drop-append n xs ys (omega arith)

  pub take_all : (n : ℕ) (xs : List A) → length xs ≤ n → take n xs ≡ xs
  take_all zero [] h = refl
  take_all (suc n) [] h = refl
  take_all zero (x ∷ xs) h = absurd (omega arith)
  take_all (suc n) (x ∷ xs) h = ap (◌∷◌ x) (take_all n xs (omega arith))

  pub drop_all : (n : ℕ) (xs : List A) → length xs ≤ n → drop n xs ≡ []
  drop_all zero [] h = refl
  drop_all (suc n) [] h = refl
  drop_all zero (x ∷ xs) h = absurd (omega arith)
  drop_all (suc n) (x ∷ xs) h = drop_all n xs (omega arith)

  pub drop-nil : (n : ℕ) → drop {A = A} n [] ≡ []
  drop-nil zero = refl
  drop-nil (suc n) = refl

  pub drop-drop : (m n k : ℕ) (xs : List A) → k ≡ n + m → drop m (drop n xs) ≡ drop k xs
  drop-drop m zero k xs e = let e' : m ≡ k = omega arith in rw e'
  drop-drop m (suc n) k [] e = drop-nil m ∙ sym (drop-nil k)
  drop-drop m (suc n) zero (x ∷ xs) e = absurd (omega arith)
  drop-drop m (suc n) (suc k) (x ∷ xs) e = drop-drop m n k xs (omega arith)

  -- `memcpy(mem + off, bytes, length bytes)` inside the block.
  abbrev pub overwrite : List A → ℕ → List A → List A
  overwrite mem off bytes = take off mem ++ (bytes ++ drop (off + length bytes) mem)

module _ {ℓ} {A : Type ℓ} where
  pub length-overwrite :
      (mem : List A) (off : ℕ) (bytes : List A)
      → off + length bytes ≤ length mem
      → length (overwrite mem off bytes) ≡ length mem
  length-overwrite mem off bytes h = omega (
    arith,
    length-append (take off mem) (bytes ++ drop (off + length bytes) mem),
    length-append bytes (drop (off + length bytes) mem),
    length-take off mem,
    length-drop (off + length bytes) mem,
  )

  -- What lies before the end of the bytes just written.
  pub take-overwrite :
      (mem : List A) (off : ℕ) (bytes : List A)
      → off + length bytes ≤ length mem
      → take (off + length bytes) (overwrite mem off bytes) ≡ take off mem ++ bytes
  take-overwrite mem off bytes h =
      ap (take (off + length bytes)) regroup
      ∙ take-append (off + length bytes) (take off mem ++ bytes) _
          (omega (arith, length-append (take off mem) bytes, length-take off mem))
    where
      regroup : overwrite mem off bytes ≡ (take off mem ++ bytes) ++ drop (off + length bytes) mem
      regroup = simp append_assoc

  -- What lies behind the bytes just written is as it was.
  pub drop-overwrite :
      (mem : List A) (off : ℕ) (bytes : List A)
      → off + length bytes ≤ length mem
      → drop (off + length bytes) (overwrite mem off bytes) ≡ drop (off + length bytes) mem
  drop-overwrite mem off bytes h =
      ap (drop (off + length bytes)) (sym (append_assoc (take off mem) bytes _))
      ∙ drop-append (off + length bytes) (take off mem ++ bytes) _
          (omega (arith, length-append (take off mem) bytes, length-take off mem))

  -- What lies before the write is as it was, and the bytes stand at the offset.
  pub drop_before-overwrite :
      (mem : List A) (off : ℕ) (bytes : List A)
      → off ≤ length mem
      → drop off (overwrite mem off bytes) ≡ bytes ++ drop (off + length bytes) mem
  drop_before-overwrite mem off bytes h =
      drop-append off (take off mem) _ (omega (arith, length-take off mem))

-- One item of a list is replaced.
pub All-replace {ℓ κ} :
    {A : Type ℓ} (P : A → Type κ) (before behind : List A) (x x' : A)
    → (P x → P x')
    → All P (before ++ (x ∷ behind))
    → All P (before ++ (x' ∷ behind))
All-replace P [] behind x x' f a = (f a.0, a.1)
All-replace P (y ∷ before) behind x x' f a = (a.0, All-replace P before behind x x' f a.1)

pub All-at {ℓ κ} :
    {A : Type ℓ} (P : A → Type κ) (before behind : List A) (x : A)
    → All P (before ++ (x ∷ behind))
    → P x
All-at P [] behind x a = a.0
All-at P (y ∷ before) behind x a = All-at P before behind x a.1

-- The sum of the weights of the items. Where two lists weigh the same by every weight, they hold the
-- same items, each as often.
abbrev pub weigh {ℓ} : {A : Type ℓ} → (A → ℕ) → List A → ℕ
weigh f [] = 0
weigh f (x ∷ xs) = f x + weigh f xs

pub weigh-append {ℓ} :
    {A : Type ℓ} (f : A → ℕ) (xs ys : List A) → weigh f (xs ++ ys) ≡ weigh f xs + weigh f ys
weigh-append f [] ys = omega arith
weigh-append f (x ∷ xs) ys = omega (arith, weigh-append f xs ys)

pub All-append {ℓ κ} :
    {A : Type ℓ} (P : A → Type κ) (xs ys : List A) → All P xs → All P ys → All P (xs ++ ys)
All-append P [] ys p q = q
All-append P (x ∷ xs) ys p q = (p.0, All-append P xs ys p.1 q)
