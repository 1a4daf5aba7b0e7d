-- ===== src/Workflows/Verdicts.antt =====
-- How packages/workflows/src/default.ts reads the verdict of an agent: `extractJsonObject`,
-- `parseReviewResult` and `parseVerificationResult`. A text is the list of its code points;
-- `JSON.parse`, `trim` and the regular expression of a fence are arguments.
pub mod Printing
pub mod Objects
use dark_kitchen_orchestrato.Prelude.{
  ℕ, ◌+◌, ◌-◌, String, Bool, true, false, not, ◌&&◌, ◌||◌, Option, none, some, List, [], ◌∷◌,
  nat_eq, if◌then◌else◌,
}
use dark_kitchen_orchestrato.Prelude.Maps

-- What a property of a verdict may be.
pub data Property : Type 0 where
  the_true : Property
  words : String → Property
  list_of_words : List String → Property
  other_property : Property

-- What an agent returns, or `JSON.parse`.
pub data Value : Type 0 where
  object : List (String × Property) → Value
  text : List ℕ → Value
  other_value : Value

-- `parse` throws where it gives nothing; `fenced` is the group of the first fence.
pub record JsonApi : Type 0 where
  pub parse : List ℕ → Option Value
  pub trim : List ℕ → List ℕ
  pub fenced : List ℕ → Option (List ℕ)

-- A value that is an object and no array.
abbrev pub object_of : Option Value → Option (List (String × Property))
object_of (some (object fields)) = some fields
object_of _ = none

-- `text.slice(text.indexOf('{'))`
abbrev pub from_brace : List ℕ → List ℕ
from_brace [] = []
from_brace (c ∷ cs) = let rest = from_brace cs in if nat_eq c b'{' then c ∷ cs else rest

abbrev pub in_string_after : Bool → Bool → ℕ → Bool
in_string_after true true c = true
in_string_after true false c = not (nat_eq c b'"')
in_string_after false escaped c = nat_eq c b'"'

abbrev pub escaped_after : Bool → Bool → ℕ → Bool
escaped_after true false c = nat_eq c 92
escaped_after _ _ c = false

abbrev pub depth_after : ℕ → Bool → ℕ → ℕ
depth_after depth true c = depth
depth_after depth false c =
    if nat_eq c b'{' then depth + 1 else if nat_eq c b'}' then depth - 1 else depth

abbrev pub closes : ℕ → Bool → ℕ → Bool
closes depth in_string c = not in_string && (nat_eq c b'}' && nat_eq depth 1)

abbrev pub put_first : ℕ → Option (List ℕ) → Option (List ℕ)
put_first c none = none
put_first c (some cs) = some (c ∷ cs)

-- The text up to the brace that closes the first one.
unfoldable pub balanced : ℕ → Bool → Bool → List ℕ → Option (List ℕ)
balanced depth in_string escaped [] = none
balanced depth in_string escaped (c ∷ cs) =
    let rest =
      balanced (depth_after depth in_string c) (in_string_after in_string escaped c)
        (escaped_after in_string escaped c) cs in
    if closes depth in_string c then some (c ∷ []) else put_first c rest

abbrev pub or_first : {A : Type 0} → Option A → Option A → Option A
or_first (some a) o = some a
or_first none o = o

module _ (json : JsonApi) where
  abbrev pub in_fence : Option (List ℕ) → Option (List (String × Property))
  in_fence none = none
  in_fence (some []) = none
  in_fence (some (c ∷ cs)) = object_of (json.parse (json.trim (c ∷ cs)))

  abbrev pub in_braces : Option (List ℕ) → Option (List (String × Property))
  in_braces none = none
  in_braces (some cs) = object_of (json.parse cs)

  -- `extractJsonObject`
  unfoldable pub extract_json_object : Value → Option (List (String × Property))
  extract_json_object (object fields) = some fields
  extract_json_object (text t) =
      let cs = json.trim t in
      or_first (object_of (json.parse cs))
        (or_first (in_fence (json.fenced cs)) (in_braces (balanced 0 false false (from_brace cs))))
  extract_json_object other_value = none

  abbrev pub is_true_property : Option Property → Bool
  is_true_property (some the_true) = true
  is_true_property _ = false

  abbrev pub words_of : Option Property → Option String
  words_of (some (words s)) = some s
  words_of _ = none

  abbrev pub list_of : Option Property → Option (List String)
  list_of (some (list_of_words ss)) = some ss
  list_of _ = none

-- A verdict; a review has findings, and a verification a summary with evidence.
pub record Verdict : Type 0 where
  pub passed : Bool
  pub words : Option String
  pub evidence_refs : Option (List String)

module _ (json : JsonApi) where
  abbrev pub review_of : Option (List (String × Property)) → Verdict
  review_of none = record {
    passed = false;
    words = some "Reviewer did not return a valid JSON verdict.";
    evidence_refs = none;
  }
  review_of (some fields) = record {
    passed = is_true_property json (Maps.get "passed" fields);
    words = words_of json (Maps.get "findings" fields);
    evidence_refs = none;
  }

  abbrev pub verification_of : Option (List (String × Property)) → Verdict
  verification_of none = record {
    passed = false;
    words = some "Verifier did not return a valid JSON verdict.";
    evidence_refs = none;
  }
  verification_of (some fields) = record {
    passed = is_true_property json (Maps.get "passed" fields);
    words = words_of json (Maps.get "summary" fields);
    evidence_refs = list_of json (Maps.get "evidenceRefs" fields);
  }

  -- `parseReviewResult`
  unfoldable pub parse_review_result : Value → Verdict
  unfolding extract_json_object
  parse_review_result v = review_of (extract_json_object json v)

  -- `parseVerificationResult`
  unfoldable pub parse_verification_result : Value → Verdict
  unfolding extract_json_object
  parse_verification_result v = verification_of (extract_json_object json v)
