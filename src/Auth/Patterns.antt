-- ===== src/Auth/Patterns.antt =====
-- What a pattern of a key allows.
use heterion_router.Prelude.{
  ℕ, ◌≡◌, ◌≢◌, ◌↔◌, ◌⊎◌, inl, inr, refl, sym, ◌∙◌, ap, Bool, true, false, ◌||◌, Option, none, some,
  [], ◌∷◌, ◌++◌, Text, codes, text_eq, text_eq_refl, text_eq_iff, starts_with, starts_with_append,
  starts_with_sound, length, length-append, arith, if◌then◌else◌,
}
use mathlib.Core.List.{append_assoc}
use heterion_router.Auth.{cons_some, strip_suffix, matches_prefix, matches_pattern}

or_true : (a b : Bool) → b ≡ true → (a || b) ≡ true
or_true true b h = refl
or_true false b h = h

same_text : {a b : Text} → some a ≡ some b → a ≡ b
same_text h = cc h

cons_some_inv :
    (c : ℕ) (o : Option Text) (p : Text)
    → cons_some c o ≡ some p
    → (q : Text) × ((o ≡ some q) × (p ≡ c ∷ q))
cons_some_inv c none p h = absurd (cc h)
cons_some_inv c (some q) p h = (q, (refl, cc h))

strip_choice :
    (suffix : Text) (c : ℕ) (s p : Text) (b : Bool)
    → ((q : Text) → strip_suffix suffix s ≡ some q → s ≡ q ++ suffix)
    → text_eq (c ∷ s) suffix ≡ b
    → (if b then some [] else cons_some c (strip_suffix suffix s)) ≡ some p
    → c ∷ s ≡ p ++ suffix
strip_choice suffix c s p true ih e h =
    (text_eq_iff (c ∷ s) suffix).0 e ∙ ap (λ q. q ++ suffix) (same_text h)
strip_choice suffix c s p false ih e h =
    let (q, (a, b)) = cons_some_inv c (strip_suffix suffix s) p h in
    ap (λ t. c ∷ t) (ih q a) ∙ ap (λ t. t ++ suffix) (sym b)

strip_sound : (suffix s p : Text) → strip_suffix suffix s ≡ some p → s ≡ p ++ suffix
unfolding strip_suffix
strip_sound suffix [] p h = absurd (cc h)
strip_sound suffix (c ∷ s) p h =
    strip_choice suffix c s p (text_eq (c ∷ s) suffix) (strip_sound suffix s) refl h

longer : (p suffix : Text) (c : ℕ) → c ∷ p ++ suffix ≢ suffix
longer p suffix c e = omega (arith, ap length e, length-append p suffix)

strip_go :
    (d : ℕ) (p suffix : Text) (b : Bool)
    → text_eq (d ∷ p ++ suffix) suffix ≡ b
    → strip_suffix suffix (p ++ suffix) ≡ some p
    → (if b then some [] else cons_some d (strip_suffix suffix (p ++ suffix))) ≡ some (d ∷ p)
strip_go d p suffix true e h =
    absurd (longer p suffix d ((text_eq_iff (d ∷ p ++ suffix) suffix).0 e))
strip_go d p suffix false e h = rw h refl

strip_complete : (suffix p : Text) → suffix ≢ [] → strip_suffix suffix (p ++ suffix) ≡ some p
unfolding strip_suffix
strip_complete [] p n = absurd (n refl)
strip_complete (c ∷ s) [] n = ground (arith, text_eq_refl (c ∷ s))
strip_complete (c ∷ s) (d ∷ p) n =
    strip_go d p (c ∷ s) (text_eq (d ∷ p ++ c ∷ s) (c ∷ s)) refl (strip_complete (c ∷ s) p n)

abbrev star : Text
star = codes "*"

abbrev folder : Text
folder = codes "/*"

-- When a pattern matches a value.
pub data Matches (pattern value : Text) : Type 0 where
  all : pattern ≡ star → Matches pattern value
  exact : pattern ≡ value → Matches pattern value
  itself : pattern ≡ value ++ folder → Matches pattern value
  below :
      (prefix rest : Text)
      → pattern ≡ prefix ++ folder
      → value ≡ prefix ++ b'/' ∷ rest
      → Matches pattern value

folder_sound :
    (pattern value prefix : Text) (b : Bool)
    → pattern ≡ prefix ++ folder
    → text_eq value prefix ≡ b
    → (b || starts_with (prefix ++ codes "/") value) ≡ true
    → Matches pattern value
folder_sound pattern value prefix true e q h =
    itself (e ∙ ap (λ t. t ++ folder) (sym ((text_eq_iff value prefix).0 q)))
folder_sound pattern value prefix false e q h =
    let (rest, r) = starts_with_sound (prefix ++ codes "/") value h in
    below prefix rest e (r ∙ append_assoc prefix (codes "/") rest)

prefix_sound :
    (pattern value : Text) (o : Option Text)
    → strip_suffix folder pattern ≡ o
    → matches_prefix pattern value o ≡ true
    → Matches pattern value
prefix_sound pattern value none e h = exact ((text_eq_iff pattern value).0 h)
prefix_sound pattern value (some prefix) e h =
    folder_sound pattern value prefix (text_eq value prefix) (strip_sound folder pattern prefix e)
      refl h

folder_true :
    (prefix value rest : Text)
    → ((value ≡ prefix) ⊎ (value ≡ prefix ++ b'/' ∷ rest))
    → (text_eq value prefix || starts_with (prefix ++ codes "/") value) ≡ true
folder_true prefix value rest (inl e) = rw (e, text_eq_refl prefix) refl
folder_true prefix value rest (inr e) =
    or_true (text_eq value prefix) (starts_with (prefix ++ codes "/") value) (
      ap (starts_with (prefix ++ codes "/")) (e ∙ sym (append_assoc prefix (codes "/") rest))
      ∙ starts_with_append (prefix ++ codes "/") rest)

stripped :
    (prefix value pattern : Text)
    → pattern ≡ prefix ++ folder
    → strip_suffix folder pattern ≡ some prefix
stripped prefix value pattern e =
    ap (strip_suffix folder) e ∙ strip_complete folder prefix (λ q. cc q)

exact_true :
    (value : Text) (o : Option Text)
    → strip_suffix folder value ≡ o
    → matches_prefix value value o ≡ true
exact_true value none e = text_eq_refl value
exact_true value (some prefix) e =
    folder_true prefix value star (inr (strip_sound folder value prefix e))

Matches-prefix :
    (pattern value : Text)
    → (pattern ≢ star)
    → Matches pattern value
    → matches_prefix pattern value (strip_suffix folder pattern) ≡ true
Matches-prefix pattern value n (all e) = absurd (n e)
Matches-prefix pattern value n (exact e) = rw e (exact_true value (strip_suffix folder value) refl)
Matches-prefix pattern value n (itself e) =
    rw (stripped value value pattern e) (folder_true value value [] (inl refl))
Matches-prefix pattern value n (below prefix rest e r) =
    rw (stripped prefix value pattern e) (folder_true prefix value rest (inr r))

sound_choice :
    (pattern value : Text) (b : Bool)
    → text_eq pattern star ≡ b
    → (if b then true else matches_prefix pattern value (strip_suffix folder pattern)) ≡ true
    → Matches pattern value
sound_choice pattern value true e h = all ((text_eq_iff pattern star).0 e)
sound_choice pattern value false e h =
    prefix_sound pattern value (strip_suffix folder pattern) refl h

complete_choice :
    (pattern value : Text) (b : Bool)
    → text_eq pattern star ≡ b
    → Matches pattern value
    → (if b then true else matches_prefix pattern value (strip_suffix folder pattern)) ≡ true
complete_choice pattern value true e m = refl
complete_choice pattern value false e m =
    Matches-prefix pattern value (λ q. cc ((text_eq_iff pattern star).1 q, e)) m

-- A pattern matches exactly: anything, when it is `*`; itself; and, when it ends in `/*`, the name in
-- front of that and everything below the name behind a slash.
pub matches_pattern-Matches :
    (pattern value : Text) → (matches_pattern pattern value ≡ true) ↔ Matches pattern value
unfolding matches_pattern
matches_pattern-Matches pattern value = (
  sound_choice pattern value (text_eq pattern star) refl,
  complete_choice pattern value (text_eq pattern star) refl,
)
