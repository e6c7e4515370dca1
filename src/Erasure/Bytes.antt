-- ===== src/Erasure/Bytes.antt =====
-- Lists of bytes that are cut and padded.
use blockyard.Common.{
  ℕ, zero, suc, ◌≡◌, ◌≤◌, ◌+◌, ◌-◌, min, refl, sym, ap, ◌∙◌, List, [], ◌∷◌, ◌++◌, length, arith,
}
use blockyard.Client.Device.{take}
use blockyard.Storage.Service.Read.{zeros, drop, resize}

left_zero : (b : ℕ) → 0 + b ≡ b
left_zero b = omega arith

left_suc : (a b : ℕ) → suc a + b ≡ suc (a + b)
left_suc a b = omega arith

less_zero : (n : ℕ) → n - 0 ≡ n
less_zero n = omega arith

pub resize-nil : (n : ℕ) → resize n [] ≡ zeros n
unfolding resize
resize-nil zero = refl
resize-nil (suc n) = refl

pub length-resize : (n : ℕ) (xs : List ℕ) → length (resize n xs) ≡ n
unfolding resize zeros
length-resize zero xs = refl
length-resize (suc n) [] = ap suc (sym (ap length (resize-nil n)) ∙ length-resize n [])
length-resize (suc n) (x ∷ xs) = ap suc (length-resize n xs)

pub length-drop : (n : ℕ) (xs : List ℕ) → length (drop n xs) ≡ length xs - n
unfolding drop
length-drop zero xs = omega arith
length-drop (suc n) [] = omega arith
length-drop (suc n) (x ∷ xs) = omega (arith, length-drop n xs)

drop-nil : (n : ℕ) → drop n [] ≡ []
unfolding drop
drop-nil zero = refl
drop-nil (suc n) = refl

pub drop_add : (a b : ℕ) (xs : List ℕ) → drop (a + b) xs ≡ drop b (drop a xs)
unfolding drop
drop_add zero b xs = rw (left_zero b) refl
drop_add (suc a) b [] = rw (left_suc a b) (sym (drop-nil b))
drop_add (suc a) b (x ∷ xs) = rw (left_suc a b) (drop_add a b xs)

pub drop-past : (n : ℕ) (xs : List ℕ) → length xs ≤ n → drop n xs ≡ []
unfolding drop
drop-past zero [] h = refl
drop-past zero (x ∷ xs) h = absurd (omega arith)
drop-past (suc n) [] h = refl
drop-past (suc n) (x ∷ xs) h = drop-past n xs (omega arith)

zeros_add : (a b : ℕ) → zeros (a + b) ≡ zeros a ++ zeros b
unfolding zeros
zeros_add zero b = rw (left_zero b) refl
zeros_add (suc a) b = rw (left_suc a b) (ap (λ (ys : List ℕ). 0 ∷ ys) (zeros_add a b))

pub resize_add : (a b : ℕ) (xs : List ℕ) → resize (a + b) xs ≡ resize a xs ++ resize b (drop a xs)
unfolding resize drop
resize_add zero b xs = rw (left_zero b) refl
resize_add (suc a) b [] =
    rw (left_suc a b, resize-nil b) (ap (λ (ys : List ℕ). 0 ∷ ys) (zeros_add a b))
resize_add (suc a) b (x ∷ xs) = rw (left_suc a b) (ap (λ (ys : List ℕ). x ∷ ys) (resize_add a b xs))

-- Data cut at a length and padded up to it.
pub take-zeros :
    (n : ℕ) (xs : List ℕ)
    → take (min n (length xs)) xs ++ zeros (n - min n (length xs)) ≡ resize n xs
unfolding take zeros resize
take-zeros zero xs = let none_kept : min 0 (length xs) ≡ 0 = omega arith in rw none_kept refl
take-zeros (suc n) [] =
    let none_kept : min (suc n) 0 ≡ 0 = omega arith in rw (none_kept, less_zero (suc n)) refl
take-zeros (suc n) (x ∷ xs) =
    let one_kept : min (suc n) (suc (length xs)) ≡ suc (min n (length xs)) = omega arith in
    let left : suc n - suc (min n (length xs)) ≡ n - min n (length xs) = omega arith in
    rw (one_kept, left) (ap (λ (ys : List ℕ). x ∷ ys) (take-zeros n xs))

pub take-resize : (k n : ℕ) (xs : List ℕ) → k ≤ n → take k (resize n xs) ≡ resize k xs
unfolding take resize zeros
take-resize zero n xs le = refl
take-resize (suc k) zero xs le = absurd (omega arith)
take-resize (suc k) (suc n) [] le =
    let rest = take-resize k n [] (omega arith) in
    ap (λ (ys : List ℕ). 0 ∷ ys)
      (ap (λ (ys : List ℕ). take k ys) (sym (resize-nil n)) ∙ rest ∙ resize-nil k)
take-resize (suc k) (suc n) (x ∷ xs) le =
    ap (λ (ys : List ℕ). x ∷ ys) (take-resize k n xs (omega arith))

pub resize-length : (xs : List ℕ) → resize (length xs) xs ≡ xs
unfolding resize
resize-length [] = refl
resize-length (x ∷ xs) = ap (λ (ys : List ℕ). x ∷ ys) (resize-length xs)

pub drop-resize : (o n : ℕ) (xs : List ℕ) → drop o (resize n xs) ≡ resize (n - o) (drop o xs)
unfolding drop resize zeros
drop-resize zero n xs = rw (less_zero n) refl
drop-resize (suc o) zero xs = let none_left : 0 - suc o ≡ 0 = omega arith in rw none_left refl
drop-resize (suc o) (suc n) [] =
    let shifted : suc n - suc o ≡ n - o = omega arith in
    let rest = drop-resize o n [] in
    rw shifted (
      ap (λ (ys : List ℕ). drop o ys) (sym (resize-nil n))
      ∙ rest
      ∙ ap (λ (ys : List ℕ). resize (n - o) ys) (drop-nil o))
drop-resize (suc o) (suc n) (x ∷ xs) =
    let shifted : suc n - suc o ≡ n - o = omega arith in rw shifted (drop-resize o n xs)

-- Padding may be cut away and put back.
pub resize-resize : (m n : ℕ) (xs : List ℕ) → length xs ≤ n → resize m (resize n xs) ≡ resize m xs
unfolding resize zeros
resize-resize zero n xs le = refl
resize-resize (suc m) zero [] le = refl
resize-resize (suc m) zero (x ∷ xs) le = absurd (omega arith)
resize-resize (suc m) (suc n) [] le =
    let rest = resize-resize m n [] (omega arith) in
    ap (λ (ys : List ℕ). 0 ∷ ys)
      (ap (λ (ys : List ℕ). resize m ys) (sym (resize-nil n)) ∙ rest ∙ resize-nil m)
resize-resize (suc m) (suc n) (x ∷ xs) le =
    ap (λ (ys : List ℕ). x ∷ ys) (resize-resize m n xs (omega arith))

pub resize-longer : (m n : ℕ) (xs : List ℕ) → m ≤ n → resize m (resize n xs) ≡ resize m xs
unfolding resize zeros
resize-longer zero n xs le = refl
resize-longer (suc m) zero xs le = absurd (omega arith)
resize-longer (suc m) (suc n) [] le =
    let rest = resize-longer m n [] (omega arith) in
    ap (λ (ys : List ℕ). 0 ∷ ys)
      (ap (λ (ys : List ℕ). resize m ys) (sym (resize-nil n)) ∙ rest ∙ resize-nil m)
resize-longer (suc m) (suc n) (x ∷ xs) le =
    ap (λ (ys : List ℕ). x ∷ ys) (resize-longer m n xs (omega arith))
