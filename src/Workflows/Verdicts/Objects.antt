-- ===== src/Workflows/Verdicts/Objects.antt =====
-- The scanner of `extractJsonObject` cuts an object out of the text around it.
use dark_kitchen_orchestrato.Prelude.{
  ℕ, ◌+◌, ◌-◌, suc, String, ◌≡◌, refl, ap, ◌∙◌, sym, Bool, true, false, not, ◌&&◌, ◌||◌, Option,
  none, some, List, [], ◌∷◌, ◌++◌, nat_eq, all, arith, Bool-cases, inl, inr,
}
use mathlib.Core.List.{append_assoc}
use dark_kitchen_orchestrato.Workflows.Verdicts.{
  Property, object, text, JsonApi, object_of, in_fence, in_braces, extract_json_object, from_brace,
  put_first, balanced,
}
use dark_kitchen_orchestrato.Workflows.Verdicts.Printing.{
  Letter, Json, Items, Fields, escape, quoted, only, is_blank, is_numeral, spaced_key, print,
  print_items, more_items, print_fields, more_fields, null, boolean, number, str, array, obj,
  spaced, nil, item, end, field, plain, escaped,
}

abbrev put_all : List ℕ → Option (List ℕ) → Option (List ℕ)
put_all [] o = o
put_all (c ∷ cs) o = put_first c (put_all cs o)

put_all-append :
    (xs ys : List ℕ) (o : Option (List ℕ)) → put_all (xs ++ ys) o ≡ put_all xs (put_all ys o)
put_all-append [] ys o = refl
put_all-append (x ∷ xs) ys o = ap (put_first x) (put_all-append xs ys o)

put_all-some : (xs ys : List ℕ) → put_all xs (some ys) ≡ some (xs ++ ys)
put_all-some [] ys = refl
put_all-some (x ∷ xs) ys = ap (put_first x) (put_all-some xs ys)

-- Within an object, outside a string.
abbrev within : ℕ → List ℕ → Option (List ℕ)
within d cs = balanced (suc d) false false cs

-- The scanner passes over the text.
abbrev Passes : ℕ → List ℕ → Type 0
Passes d xs = (rest : List ℕ) → within d (xs ++ rest) ≡ put_all xs (within d rest)

Passes-append : (d : ℕ) (xs ys : List ℕ) → Passes d xs → Passes d ys → Passes d (xs ++ ys)
Passes-append d xs ys p q rest =
    ap (within d) (append_assoc xs ys rest)
    ∙ (p (ys ++ rest) ∙ (ap (put_all xs) (q rest) ∙ sym (put_all-append xs ys (within d rest))))

-- A character that is no quote and no brace.
Passes-cons :
    (d c : ℕ) (xs : List ℕ)
    → nat_eq c b'"' ≡ false
    → nat_eq c b'{' ≡ false
    → nat_eq c b'}' ≡ false
    → Passes d xs
    → Passes d (c ∷ xs)
unfolding balanced
Passes-cons d c xs a b e p rest = rw (a, b, e) (ap (put_first c) (p rest))

Passes-nil : (d : ℕ) → Passes d []
Passes-nil d rest = refl

abbrev is_plain : ℕ → Bool
is_plain c = not (nat_eq c b'"') && (not (nat_eq c b'{') && not (nat_eq c b'}'))

Passes-word : (d : ℕ) (cs : List ℕ) → all is_plain cs ≡ true → Passes d cs
Passes-word d [] h = Passes-nil d
Passes-word d (c ∷ cs) h =
    Passes-cons d c cs (ground (arith, h)) (ground (arith, h)) (ground (arith, h))
      (Passes-word d cs (ground (arith, h)))

Passes-only :
    (d : ℕ) (p : ℕ → Bool) (cs : List ℕ)
    → ((c : ℕ) → p c ≡ true → is_plain c ≡ true)
    → Passes d (only p cs)
Passes-only d p [] h = Passes-nil d
Passes-only d p (c ∷ cs) h = elim (Bool-cases (p c)) [
  | inl e ↦
      let q = h c e in
      rw e (
        Passes-cons d c (only p cs) (ground (arith, q)) (ground (arith, q)) (ground (arith, q))
          (Passes-only d p cs h))
  | inr e ↦ rw e (Passes-only d p cs h)
]

Passes-blank : (d : ℕ) (cs : List ℕ) → Passes d (only is_blank cs)
Passes-blank d cs = Passes-only d is_blank cs λ c h. ground (arith, h)

in_quotes :
    (d : ℕ) (s : List Letter) (rest : List ℕ)
    → balanced (suc d) true false (escape s ++ b'"' ∷ rest)
      ≡ put_all (escape s) (put_first b'"' (within d rest))
unfolding balanced
in_quotes d [] rest = refl
in_quotes d (escaped c ∷ cs) rest = ap (λ o. put_first 92 (put_first c o)) (in_quotes d cs rest)
in_quotes d (plain c ∷ cs) rest = elim (Bool-cases (nat_eq c b'"' || nat_eq c 92)) [
  | inl e ↦ rw e (ap (λ o. put_first 92 (put_first c o)) (in_quotes d cs rest))
  | inr e ↦
      let plain : (nat_eq c b'"' ≡ false) × (nat_eq c 92 ≡ false) =
        (ground (arith, e), ground (arith, e)) in
      rw e (rw (plain.0, plain.1) (ap (put_first c) (in_quotes d cs rest)))
]

Passes-quoted : (d : ℕ) (s : List Letter) → Passes d (quoted s)
unfolding balanced
Passes-quoted d s rest = rw (append_assoc (escape s) (b'"' ∷ []) rest) (
    ap (put_first b'"')
      (in_quotes d s rest ∙ sym (put_all-append (escape s) (b'"' ∷ []) (within d rest))))

-- The brace that closes an inner object.
within-close :
    (d : ℕ) (rest : List ℕ) → within (suc d) (b'}' ∷ rest) ≡ put_first b'}' (within d rest)
unfolding balanced
within-close d rest =
    let deep : nat_eq (suc (suc d)) 1 ≡ false = ground arith in
    let up : suc (suc d) - 1 ≡ suc d = omega arith in rw (deep, up) refl

-- An opening brace, what the deeper level passes, and the closing brace.
Passes-braces : (d : ℕ) (xs : List ℕ) → Passes (suc d) xs → Passes d (b'{' ∷ xs ++ b'}' ∷ [])
unfolding balanced
Passes-braces d xs p rest = rw (append_assoc xs (b'}' ∷ []) rest) (
    let two : suc d + 1 ≡ suc (suc d) = omega arith in
    ap (put_first b'{') (
      rw two (p (b'}' ∷ rest) ∙ ap (put_all xs) (within-close d rest))
      ∙ sym (put_all-append xs (b'}' ∷ []) (within d rest))))

Passes-key : (d : ℕ) (ws : List ℕ) (k : List Letter) (vs : List ℕ) → Passes d (spaced_key ws k vs)
Passes-key d ws k vs =
    Passes-append d (only is_blank ws) (quoted k ++ (only is_blank vs ++ b':' ∷ []))
      (Passes-blank d ws)
      (Passes-append d (quoted k) (only is_blank vs ++ b':' ∷ []) (Passes-quoted d k) (
        Passes-append d (only is_blank vs) (b':' ∷ []) (Passes-blank d vs)
          (Passes-cons d b':' [] refl refl refl (Passes-nil d))))

-- Values in a list or an object are passed.
mutual
  unfolding print print_items print_fields more_items more_fields

  Passes-print : (d : ℕ) (j : Json) → Passes d (print j)
  Passes-print d null = Passes-word d (b'n' ∷ b'u' ∷ b'l' ∷ b'l' ∷ []) refl
  Passes-print d (boolean true) = Passes-word d (b't' ∷ b'r' ∷ b'u' ∷ b'e' ∷ []) refl
  Passes-print d (boolean false) = Passes-word d (b'f' ∷ b'a' ∷ b'l' ∷ b's' ∷ b'e' ∷ []) refl
  Passes-print d (number ds) = Passes-only d is_numeral ds λ c h. ground (arith, h)
  Passes-print d (str s) = Passes-quoted d s
  Passes-print d (array xs) = Passes-cons d b'[' (print_items xs ++ b']' ∷ []) refl refl refl (
      Passes-append d (print_items xs) (b']' ∷ []) (Passes-items d xs)
        (Passes-cons d b']' [] refl refl refl (Passes-nil d)))
  Passes-print d (obj fs) = Passes-braces d (print_fields fs) (Passes-fields (suc d) fs)
  Passes-print d (spaced before j after) =
      Passes-append d (only is_blank before) (print j ++ only is_blank after)
        (Passes-blank d before)
        (Passes-append d (print j) (only is_blank after) (Passes-print d j) (Passes-blank d after))

  Passes-items : (d : ℕ) (xs : Items) → Passes d (print_items xs)
  Passes-items d (nil ws) = Passes-blank d ws
  Passes-items d (item x xs) =
      Passes-append d (print x) (more_items xs) (Passes-print d x) (Passes-more_items d xs)

  Passes-more_items : (d : ℕ) (xs : Items) → Passes d (more_items xs)
  Passes-more_items d (nil ws) = Passes-blank d ws
  Passes-more_items d (item x xs) =
      Passes-cons d b',' (print x ++ more_items xs) refl refl refl
        (Passes-append d (print x) (more_items xs) (Passes-print d x) (Passes-more_items d xs))

  Passes-fields : (d : ℕ) (fs : Fields) → Passes d (print_fields fs)
  Passes-fields d (end ws) = Passes-blank d ws
  Passes-fields d (field ws k vs x fs) =
      Passes-append d (spaced_key ws k vs) (print x ++ more_fields fs) (Passes-key d ws k vs)
        (Passes-append d (print x) (more_fields fs) (Passes-print d x) (Passes-more_fields d fs))

  Passes-more_fields : (d : ℕ) (fs : Fields) → Passes d (more_fields fs)
  Passes-more_fields d (end ws) = Passes-blank d ws
  Passes-more_fields d (field ws k vs x fs) =
      Passes-cons d b',' (spaced_key ws k vs ++ (print x ++ more_fields fs)) refl refl refl (
        Passes-append d (spaced_key ws k vs) (print x ++ more_fields fs) (Passes-key d ws k vs)
          (Passes-append d (print x) (more_fields fs) (Passes-print d x) (Passes-more_fields d fs)))

-- No brace stands in the text.
abbrev has_no_brace : List ℕ → Bool
has_no_brace cs = all (λ c. not (nat_eq c b'{')) cs

from_brace-append :
    (before cs : List ℕ) → has_no_brace before ≡ true → from_brace (before ++ b'{' ∷ cs) ≡ b'{' ∷ cs
from_brace-append [] cs h = refl
from_brace-append (b ∷ bs) cs h = ground (arith, h, from_brace-append bs cs)

-- The scanner gives a printed object that follows a text without a brace, whatever comes after it.
balanced-print :
    (before after : List ℕ) (fs : Fields)
    → has_no_brace before ≡ true
    → balanced 0 false false (from_brace (before ++ (print (obj fs) ++ after)))
      ≡ some (print (obj fs))
unfolding balanced print
balanced-print before after fs h =
    let xs = print_fields fs in
    rw (from_brace-append before ((xs ++ b'}' ∷ []) ++ after) h, append_assoc xs (b'}' ∷ []) after)
      (ap (put_first b'{') (Passes-fields 0 fs (b'}' ∷ after) ∙ put_all-some xs (b'}' ∷ [])))

module _ (json : JsonApi) where
  -- An agent that writes an object of JSON into prose is understood, with white space between the
  -- tokens, any numbers and any escapes in strings: if no brace stands before the object, neither the
  -- whole text nor a fence parses to an object, and the object itself parses, its properties are
  -- found.
  pub extract_json_object-print :
      (t before after : List ℕ) (fs : Fields) {fields : List (String × Property)}
      → json.trim t ≡ before ++ (print (obj fs) ++ after)
      → has_no_brace before ≡ true
      → object_of (json.parse (json.trim t)) ≡ none
      → in_fence json (json.fenced (json.trim t)) ≡ none
      → json.parse (print (obj fs)) ≡ some (object fields)
      → extract_json_object json (text t) ≡ some fields
  unfolding extract_json_object
  extract_json_object-print t before after fs e h whole fence parsed =
      rw (whole, fence)
        (ap (λ cs. in_braces json (balanced 0 false false (from_brace cs))) e
          ∙ (ap (in_braces json) (balanced-print before after fs h) ∙ ap object_of parsed))
