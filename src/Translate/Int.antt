-- ===== src/Translate/Int.antt =====
-- Machine integers of the adapters: an i64 as a sign and a natural, a u32 with its wrap-around.
use heterion_router.Prelude.{
  ℕ, zero, suc, ◌+◌, ◌/◌, ◌%◌, ◌^◌, Bool, false, Option, none, some, [], ◌∷◌, ◌++◌, Text, ltb, ◌==◌,
  if◌then◌else◌, ◌<◌, ◌≡◌, refl, ap, arith,
}
use heterion_router.Json.{Value, Number, null, bool, number, string, array, object}

-- `negsuc n` is -(n + 1).
pub data ℤ : Type 0 where
  pos negsuc : ℕ → ℤ

unfoldable pub int_eq : ℤ → ℤ → Bool
int_eq (pos m) (pos n) = m == n
int_eq (pos m) (negsuc n) = false
int_eq (negsuc m) (pos n) = false
int_eq (negsuc m) (negsuc n) = m == n

pub int_eq_refl : (i : ℤ) → int_eq i i ≡ Bool.true
unfolding int_eq
int_eq_refl (pos n) = ground arith
int_eq_refl (negsuc n) = ground arith

pub eq_of_int_eq : (i j : ℤ) → int_eq i j ≡ Bool.true → i ≡ j
unfolding int_eq
eq_of_int_eq (pos m) (pos n) h = ap pos (ground arith)
eq_of_int_eq (pos m) (negsuc n) h = cc h
eq_of_int_eq (negsuc m) (pos n) h = cc h
eq_of_int_eq (negsuc m) (negsuc n) h = ap negsuc (ground arith)

-- `Value::as_i64`: a number of the parser fits unless it is 2^63 or more.
abbrev pub as_i64 : Value → Option ℤ
as_i64 (number (Number.nat n)) = if ltb n (2 ^ 63) then some (pos n) else none
as_i64 (number (Number.neg n)) = some (negsuc n)
as_i64 (number (Number.float s)) = none
as_i64 null = none
as_i64 (bool b) = none
as_i64 (string s) = none
as_i64 (array vs) = none
as_i64 (object fs) = none

-- `json!` of an i64.
abbrev pub json_int : ℤ → Value
json_int (pos n) = number (Number.nat n)
json_int (negsuc n) = number (Number.neg n)

unfoldable pub show_digits : ℕ → ℕ → Text
show_digits zero n = []
show_digits (suc f) n =
    let front = show_digits f (n / 10) in
    if ltb n 10 then (b'0' + n) ∷ [] else front ++ (b'0' + n % 10) ∷ []

-- An i64 or a u64 in decimal: it has twenty digits at most.
unfoldable pub show_int : ℤ → Text
unfolding show_digits
show_int (pos n) = show_digits 20 n
show_int (negsuc n) = b'-' ∷ show_digits 20 (n + 1)

-- `as u32`, and what a sum of two u32 is in a release build.
abbrev pub wrap32 : ℕ → ℕ
wrap32 n = n % 2 ^ 32

pub wrap32_bound : (n : ℕ) → wrap32 n < 2 ^ 32
wrap32_bound n = omega arith

pub int_eq_comm : (i j : ℤ) → int_eq i j ≡ int_eq j i
unfolding int_eq
int_eq_comm (pos m) (pos n) = ground arith
int_eq_comm (pos m) (negsuc n) = refl
int_eq_comm (negsuc m) (pos n) = refl
int_eq_comm (negsuc m) (negsuc n) = ground arith
