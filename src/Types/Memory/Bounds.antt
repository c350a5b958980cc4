-- ===== src/Types/Memory/Bounds.antt =====
-- What the memory operations of servercc/types leave in a vector of bytes.
use servercc.Common.{
  ℕ, zero, suc, ◌+◌, ◌≤◌, ◌<◌, ◌≡◌, refl, ap, List, [], ◌∷◌, ◌++◌, done, undefined, arith, length,
  take, drop, All, le→leb,
}
use servercc.Types.Memory.{copy_from, copy_into, resize}

pub length-resize : (n : ℕ) (bs : List ℕ) → length (resize n bs) ≡ n
unfolding resize
length-resize zero bs = refl
length-resize (suc n) [] = ap suc (length-resize n [])
length-resize (suc n) (b ∷ bs) = ap suc (length-resize n bs)

pub take-resize : (m n : ℕ) (bs : List ℕ) → m ≤ n → take m (resize n bs) ≡ resize m bs
unfolding resize
take-resize zero n bs h = refl
take-resize (suc m) zero bs h = absurd (omega arith)
take-resize (suc m) (suc n) [] h = ap (λ t. 0 ∷ t) (take-resize m n [] (omega arith))
take-resize (suc m) (suc n) (b ∷ bs) h = ap (λ t. b ∷ t) (take-resize m n bs (omega arith))

pub resize_self : (n : ℕ) (bs : List ℕ) → length bs ≡ n → resize n bs ≡ bs
unfolding resize
resize_self zero [] h = refl
resize_self (suc n) [] h = absurd (omega arith)
resize_self zero (b ∷ bs) h = absurd (omega arith)
resize_self (suc n) (b ∷ bs) h = ap (λ t. b ∷ t) (resize_self n bs (omega arith))

pub copy_into-done :
    (bs : List ℕ) (o : ℕ) (s : List ℕ)
    → o + length s ≤ length bs
    → copy_into bs o s ≡ done (take o bs ++ (s ++ drop (o + length s) bs))
unfolding copy_into
copy_into-done bs o s h = rw (le→leb (o + length s) (length bs) h)

pub copy_from-done :
    (bs : List ℕ) (o n : ℕ) → o + n ≤ length bs → copy_from bs o n ≡ done (take n (drop o bs))
unfolding copy_from
copy_from-done bs o n h = rw (le→leb (o + n) (length bs) h)

pub copy_from-undefined : (bs : List ℕ) (o n : ℕ) → length bs < o + n → copy_from bs o n ≡ undefined
unfolding copy_from
copy_from-undefined bs o n h = ground arith

pub copy_into-undefined :
    (bs : List ℕ) (o : ℕ) (s : List ℕ) → length bs < o + length s → copy_into bs o s ≡ undefined
unfolding copy_into
copy_into-undefined bs o s h = ground arith

take-nil : (n : ℕ) → take {A = ℕ} n [] ≡ []
take-nil zero = refl
take-nil (suc n) = refl

-- Two adjacent pieces make one.
pub take-take-drop :
    (m n k : ℕ) (bs : List ℕ) → k ≡ m + n → take m bs ++ take n (drop m bs) ≡ take k bs
take-take-drop zero n k bs h = ap (λ j. take j bs) (omega arith)
take-take-drop (suc m) n zero bs h = absurd (omega arith)
take-take-drop (suc m) n (suc k) [] h = take-nil n
take-take-drop (suc m) n (suc k) (b ∷ bs) h =
    ap (λ t. b ∷ t) (take-take-drop m n k bs (omega arith))

pub All-take : (P : ℕ → Type 0) (n : ℕ) (bs : List ℕ) → All P bs → All P (take n bs)
All-take P zero bs h = tt
All-take P (suc n) [] h = tt
All-take P (suc n) (b ∷ bs) h = (h.0, All-take P n bs h.1)

pub All-drop : (P : ℕ → Type 0) (n : ℕ) (bs : List ℕ) → All P bs → All P (drop n bs)
All-drop P zero bs h = h
All-drop P (suc n) [] h = tt
All-drop P (suc n) (b ∷ bs) h = All-drop P n bs h.1
