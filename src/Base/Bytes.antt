-- ===== src/Base/Bytes.antt =====
-- Byte-addressed memory: a function from addresses, read by `slice` and written by `store`.
use Prim.Native.Nat.{ℕ, zero, suc, ◌+◌, ◌-◌, ◌≤◌, ◌<◌}
use Prim.Native.Nat.add
use mathlib.Core.Path.{◌≡◌, refl, sym, ap, ap₂, ◌∙◌}
use mathlib.Core.Logic.{◌⊎◌}
use mathlib.Core.Bool.{◌&&◌}
use mathlib.Core.List.{List, [], ◌∷◌, ◌++◌}
use native.Mathlib.Nat.{add-zero}
use native.Mathlib.Omega.{arith}
use hdlgame_installer.Base.Tests.{leb, ltb, if◌then◌else◌}
use hdlgame_installer.Base.Lists.{length, get_or, take, drop}

abbrev pub Memory : Type 0
Memory = ℕ → ℕ

-- `n` bytes from address `a` on.
abbrev pub slice : Memory → ℕ → ℕ → List ℕ
slice m a zero = []
slice m a (suc n) = m a ∷ slice m (a + 1) n

-- `memcpy(&m[a], bs, length bs)`
pub store : Memory → ℕ → List ℕ → Memory
store m a bs x = if leb a x && ltb x (a + length bs) then get_or bs (x - a) 0 else m x

pub slice-add : (m : Memory) (a n k : ℕ) → slice m a (n + k) ≡ slice m a n ++ slice m (a + n) k
slice-add m a zero k = ap₂ (slice m) (omega arith) (omega arith)
slice-add m a (suc n) k = rw add.suc (
    ap (λ t. m a ∷ t)
      (slice-add m (a + 1) n k ∙ ap (λ b. slice m (a + 1) n ++ slice m b k) (omega arith)))

pub length-slice : (m : Memory) (a n : ℕ) → length (slice m a n) ≡ n
length-slice m a zero = refl
length-slice m a (suc n) = ap suc (length-slice m (a + 1) n)

pub slice-ext :
    (m m' : Memory) (a n : ℕ)
    → ((x : ℕ) → a ≤ x → x < a + n → m x ≡ m' x)
    → slice m a n ≡ slice m' a n
slice-ext m m' a zero h = refl
slice-ext m m' a (suc n) h =
    ap₂ ◌∷◌ (h a (omega arith) (omega arith))
      (slice-ext m m' (a + 1) n (λ x lo hi. h x (omega arith) (omega arith)))

-- A store is not seen outside the bytes that it writes.
pub slice-store_ne :
    (m : Memory) (a b n : ℕ) (bs : List ℕ)
    → (b + n ≤ a) ⊎ (a + length bs ≤ b)
    → slice (store m a bs) b n ≡ slice m b n
unfolding store
slice-store_ne m a b n bs h = slice-ext (store m a bs) m b n (λ x lo hi. ground arith)

slice-eq :
    (m : Memory) (a : ℕ) (bs : List ℕ)
    → ((i : ℕ) → i < length bs → m (a + i) ≡ get_or bs i 0)
    → slice m a (length bs) ≡ bs
slice-eq m a [] h = refl
slice-eq m a (b ∷ bs) h =
    ap₂ ◌∷◌ (ap m (sym (add-zero a)) ∙ h 0 (omega arith))
      (slice-eq m (a + 1) bs (λ i lt. ap m (omega arith) ∙ h (suc i) (omega arith)))

add-sub_left : (a i : ℕ) → (a + i) - a ≡ i
add-sub_left a i = omega arith

-- What was stored is read back.
pub slice-store_self : (m : Memory) (a : ℕ) (bs : List ℕ) → slice (store m a bs) a (length bs) ≡ bs
unfolding store
slice-store_self m a bs = slice-eq (store m a bs) a bs (λ i h. ground (arith, add-sub_left a i))

pub take-slice : (m : Memory) (a n k : ℕ) → n ≤ k → take n (slice m a k) ≡ slice m a n
take-slice m a zero k h = refl
take-slice m a (suc n) zero h = absurd (omega arith)
take-slice m a (suc n) (suc k) h = ap (m a ∷◌) (take-slice m (a + 1) n k (omega arith))

pub drop-slice : (m : Memory) (a n k : ℕ) → drop n (slice m a (n + k)) ≡ slice m (a + n) k
drop-slice m a zero k = ap₂ (slice m) (omega arith) (omega arith)
drop-slice m a (suc n) k =
    rw add.suc (drop-slice m (a + 1) n k ∙ ap (λ b. slice m b k) (omega arith))
