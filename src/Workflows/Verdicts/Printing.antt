-- ===== src/Workflows/Verdicts/Printing.antt =====
-- Texts of JSON, printed from trees that keep the white space between the tokens and the escapes of
-- strings as they are written.
use dark_kitchen_orchestrato.Prelude.{
  ℕ, Bool, true, false, ◌&&◌, ◌||◌, List, [], ◌∷◌, ◌++◌, nat_eq, leb, if◌then◌else◌,
}

-- A character of a string, written as it is (a quote and a backslash are escaped) or after a
-- backslash.
pub data Letter : Type 0 where
  plain escaped : ℕ → Letter

mutual
  pub data Json : Type 0 where
    null : Json
    boolean : Bool → Json
    number : List ℕ → Json
    str : List Letter → Json
    array : Items → Json
    obj : Fields → Json
    -- White space before and after a value.
    spaced : List ℕ → Json → List ℕ → Json

  pub data Items : Type 0 where
    -- White space before the bracket.
    nil : List ℕ → Items
    item : Json → Items → Items

  pub data Fields : Type 0 where
    -- White space before the brace.
    end : List ℕ → Fields
    -- A key with white space before and after it.
    field : List ℕ → List Letter → List ℕ → Json → Fields → Fields

abbrev pub escape : List Letter → List ℕ
escape [] = []
escape (plain c ∷ cs) =
    let rest = escape cs in if nat_eq c b'"' || nat_eq c 92 then 92 ∷ c ∷ rest else c ∷ rest
escape (escaped c ∷ cs) = 92 ∷ c ∷ escape cs

abbrev pub quoted : List Letter → List ℕ
quoted cs = b'"' ∷ escape cs ++ b'"' ∷ []

-- The characters that are of the kind.
abbrev pub only : (ℕ → Bool) → List ℕ → List ℕ
only p [] = []
only p (c ∷ cs) = let rest = only p cs in if p c then c ∷ rest else rest

-- White space of JSON.
abbrev pub is_blank : ℕ → Bool
is_blank c = nat_eq c 32 || nat_eq c 9 || nat_eq c 10 || nat_eq c 13

-- Digits, signs, the point and the letter of the exponent.
abbrev pub is_numeral : ℕ → Bool
is_numeral c =
    (leb 48 c && leb c 57)
    || nat_eq c b'-'
    || nat_eq c b'+'
    || nat_eq c b'.'
    || nat_eq c b'e'
    || nat_eq c b'E'

-- A key with the white space around it, and the colon.
abbrev pub spaced_key : List ℕ → List Letter → List ℕ → List ℕ
spaced_key ws k vs = only is_blank ws ++ (quoted k ++ (only is_blank vs ++ b':' ∷ []))

unfoldable mutual
  pub print : Json → List ℕ
  print null = b'n' ∷ b'u' ∷ b'l' ∷ b'l' ∷ []
  print (boolean true) = b't' ∷ b'r' ∷ b'u' ∷ b'e' ∷ []
  print (boolean false) = b'f' ∷ b'a' ∷ b'l' ∷ b's' ∷ b'e' ∷ []
  print (number ds) = only is_numeral ds
  print (str s) = quoted s
  print (array xs) = b'[' ∷ print_items xs ++ b']' ∷ []
  print (obj fs) = b'{' ∷ print_fields fs ++ b'}' ∷ []
  print (spaced before j after) = only is_blank before ++ (print j ++ only is_blank after)

  pub print_items : Items → List ℕ
  print_items (nil ws) = only is_blank ws
  print_items (item x xs) = print x ++ more_items xs

  pub more_items : Items → List ℕ
  more_items (nil ws) = only is_blank ws
  more_items (item x xs) = b',' ∷ (print x ++ more_items xs)

  pub print_fields : Fields → List ℕ
  print_fields (end ws) = only is_blank ws
  print_fields (field ws k vs x fs) = spaced_key ws k vs ++ (print x ++ more_fields fs)

  pub more_fields : Fields → List ℕ
  more_fields (end ws) = only is_blank ws
  more_fields (field ws k vs x fs) = b',' ∷ (spaced_key ws k vs ++ (print x ++ more_fields fs))
