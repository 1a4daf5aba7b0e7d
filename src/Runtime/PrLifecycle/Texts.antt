-- ===== src/Runtime/PrLifecycle/Texts.antt =====
-- `buildPrTitle`, `buildPrBody` and the text helpers of packages/runtime/src/pr-lifecycle.ts.
use Prim.Native.Char.{code}
use Prim.Native.String.{◌++◌ as append}
use dark_kitchen_orchestrato.Prelude.{
  ℕ, String, Bool, false, not, ◌||◌, ◌&&◌, Option, none, some, or_else, List, [], ◌∷◌, ◌++◌, ◌==◌,
  ltb, leb, nat_eq, any, if◌then◌else◌,
}
use dark_kitchen_orchestrato.Prelude.Maps
use dark_kitchen_orchestrato.Runtime.PrLifecycle.{
  TextApi, WorkflowResult, VerificationProof, ProofStatus,
}

-- A text that is there and not empty.
abbrev pub is_set : Option String → Bool
is_set none = false
is_set (some s) = not (s == "")

abbrev codes : String → List ℕ
codes String.[] = []
codes (String.◌∷◌ c s) = code c ∷ codes s

-- `hasControlCharacters`
unfoldable pub has_control_characters : String → Bool
has_control_characters s = any (λ c. leb c 31 || nat_eq c 127) (codes s)

-- `lines.join('\n')`
abbrev join : List String → String
join [] = ""
join (s ∷ []) = s
join (s ∷ t ∷ ss) = append s (append "\n" (join (t ∷ ss)))

abbrev pub status_text : ProofStatus → String
status_text ProofStatus.passed = "passed"
status_text ProofStatus.failed = "failed"
status_text ProofStatus.blocked = "blocked"

module _ (texts : TextApi) where
  abbrev pub is_blank : String → Bool
  is_blank s = texts.trim s == ""

  -- `containsSecret`
  unfoldable pub contains_secret : String → Bool
  contains_secret s = not (texts.redact_secrets s == s)

  -- `isSafeEvidenceRef`
  unfoldable pub is_safe_evidence_ref : String → Bool
  unfolding has_control_characters contains_secret
  is_safe_evidence_ref s =
      ltb 0 (texts.size s)
      && (leb (texts.size s) 2048 && (not (has_control_characters s) && not (contains_secret s)))

  -- `sanitizePrText`
  abbrev pub sanitize_pr_text : String → String
  sanitize_pr_text s = texts.escape_comments (texts.redact_secrets s)

  -- `escapeMarkdown`
  abbrev pub escape_markdown : String → String
  escape_markdown s = texts.escape_marks (sanitize_pr_text s)

  -- `safeErrorMessage`
  abbrev pub safe_error_message : String → String
  safe_error_message s = texts.slice 1000 (texts.redact_secrets s)

  -- `buildPrTitle`
  unfoldable pub build_pr_title : WorkflowResult → String
  build_pr_title r =
      let summary = texts.trim (texts.collapse_spaces (texts.redact_secrets r.summary)) in
      let title = texts.trim (append "[DK] Task " (append r.task_id (append ": " summary))) in
      if leb (texts.size title) 256
      then title
      else append (texts.trim_end (texts.slice 253 title)) "..."

  -- `formatEvidenceRef`
  unfoldable pub format_evidence_ref : WorkflowResult → String → String
  format_evidence_ref r ref =
      let digest = or_else (Maps.get ref r.evidence_attestations) "" in
      escape_markdown (if digest == "" then ref else append ref (append " — " digest))

  abbrev evidence_lines : WorkflowResult → String → List String → List String
  evidence_lines r mark [] = []
  evidence_lines r mark (ref ∷ refs) =
      append mark (format_evidence_ref r ref) ∷ evidence_lines r mark refs

  abbrev summary_text : Option String → String
  summary_text o = let s = or_else o "" in if s == "" then "" else append " — " (sanitize_pr_text s)

  abbrev proof_lines : WorkflowResult → List VerificationProof → List String
  proof_lines r [] = []
  proof_lines r (p ∷ ps) =
      append "- " (
          append (escape_markdown p.profile_id)
            (append ": **" (append (status_text p.status) (append "**" (summary_text p.summary)))))
        ∷ evidence_lines r "  - Evidence: " p.evidence_refs
      ++ proof_lines r ps

  abbrev warning_lines : List String → List String
  warning_lines [] = []
  warning_lines (w ∷ ws) = append "- " (sanitize_pr_text w) ∷ warning_lines ws

  -- A heading over lines, if there are any.
  abbrev under : String → List String → List String
  under heading [] = []
  under heading (l ∷ ls) = "" ∷ heading ∷ l ∷ ls

  abbrev gate_lines : Option String → List String
  gate_lines o =
      let s = or_else o "" in
      if s == "" then [] else "" ∷ append "**Verification:** " (sanitize_pr_text s) ∷ []

  -- `buildPrBody`
  unfoldable pub build_pr_body : WorkflowResult → String
  unfolding format_evidence_ref
  build_pr_body r = join (
      sanitize_pr_text r.summary
        ∷ under "**Verification proofs:**" (proof_lines r (or_else r.verification_results []))
      ++ (gate_lines r.verification_gate_summary
          ++ (under "**Evidence:**" (evidence_lines r "- " (or_else r.evidence_refs []))
              ++ under "**Warnings:**" (warning_lines (or_else r.warnings [])))))
