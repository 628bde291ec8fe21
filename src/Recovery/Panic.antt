-- ===== src/Recovery/Panic.antt =====
-- recovery.go: what a panic adds to the response.
use mathlib.Core.Path.{subst}
use oashttp.Prelude.{
  Bool, Bool-cases, List, Option, [], any, ap, append-nil, arith, false, if◌then◌else◌, inl, inr,
  none, refl, some, true, ℕ, ◌++◌, ◌∙◌, ◌∷◌, ◌≡◌, ◌⊎◌,
}
use oashttp.Prelude.Text.{Text}
use oashttp.Http.Writer.{Guard, Writer}
use oashttp.Http.Writer.Open.{is_open}
use oashttp.Failure.Types.{Codec, Formatter}
use oashttp.Recovery.{
  Action, capability_writer, guarded, has_written, panicked, recover, recover_panics, returned, run,
  unexpected,
}
use oashttp.Failure.Write.{Report, World, normalize, on_writer, recovered, report, write_resolved}
use oashttp.Failure.Committed.{IsResponse, report-writer, write_resolved-IsResponse}
use oashttp.Failure.Normalized.{normalize-fields}
use oashttp.Recovery.Begun.{begins, run-has_written, write_resolved-Adds}

pub open_of_unwritten : (g : Option Guard) → has_written g ≡ false → is_open g ≡ true
open_of_unwritten none h = refl
open_of_unwritten (some g) h = rw h

report-handled :
    (w : World) → w.handled ≡ true → (report recovered w).reports ≡ w.reports ++ recovered ∷ []
unfolding report
report-handled w h = rw h

same-status : (sent : ℕ) → (sent ≡ (normalize unexpected).status) ⊎ (sent ≡ 500) → sent ≡ 500
same-status sent (inl e) = e ∙ ((normalize-fields unexpected).0 (omega arith)).0
same-status sent (inr e) = e

-- What the handler of errors is told of a panic, if there is one.
abbrev pub told : World → List Report
told w = if w.handled then recovered ∷ [] else []

-- A failure response with status 500 was written.
abbrev pub Is500 : Writer → Writer → Type 0
Is500 w w' = (media : Text) × (payload : Text) × IsResponse 500 media payload w w'

module _ {V : Type 0} (codec : Codec V) (formatter : Option (Formatter V))
    (failure_type : Text) where
  pub recover_returned : (u : World) → recover codec formatter failure_type returned u ≡ u
  unfolding recover
  recover_returned u = refl

  pub recover-written :
      (u : World)
      → has_written u.writer.guard ≡ true
      → recover codec formatter failure_type panicked u ≡ report recovered u
  unfolding recover
  recover-written u h = rw (report-writer recovered u, h)

  recover_step :
      (u : World)
      → has_written u.writer.guard ≡ false
      → recover codec formatter failure_type panicked u
        ≡ write_resolved codec formatter failure_type unexpected (report recovered u)
  unfolding recover
  recover_step u h = rw (report-writer recovered u, h)

  unexpected-Is500 :
      (t : World)
      → is_open t.writer.guard ≡ true
      → Is500 t.writer (write_resolved codec formatter failure_type unexpected t).writer
  unexpected-Is500 t o =
      let (sent, media, payload, low, high, which, r) =
        write_resolved-IsResponse codec formatter failure_type unexpected t o in
      (
        media,
        payload,
        subst
            (λ n.
              IsResponse n media payload t.writer
                (write_resolved codec formatter failure_type unexpected t).writer)
            (same-status sent which) r,
      )

  pub recover-unwritten :
      (u : World)
      → has_written u.writer.guard ≡ false
      → Is500 u.writer (recover codec formatter failure_type panicked u).writer
  recover-unwritten u h =
      let told = report recovered u in
      let same = report-writer recovered u in
      rw (recover_step u h) (
        subst (λ v. Is500 v (write_resolved codec formatter failure_type unexpected told).writer)
          same
          (unexpected-Is500 told
            (ap (λ (v : Writer). is_open v.guard) same ∙ open_of_unwritten u.writer.guard h)))

  -- What is added of reports of a panic.
  report-told : (w : World) → (report recovered w).reports ≡ w.reports ++ told w
  unfolding report
  report-told w = elim (Bool-cases w.handled) [
    | inl h ↦ rw (h, report) refl
    | inr h ↦ rw (h, report, append-nil) refl
  ]

  recover-written-Panics :
      (u : World)
      → has_written u.writer.guard ≡ true
      → let out = recover codec formatter failure_type panicked u in
        (out.writer ≡ u.writer) × (out.reports ≡ u.reports ++ told u)
  recover-written-Panics u h =
      let same = recover-written u h in
      (
        ap (λ (v : World). v.writer) same ∙ report-writer recovered u,
        ap (λ (v : World). v.reports) same ∙ report-told u,
      )

  recover-unwritten-Panics :
      (u : World)
      → has_written u.writer.guard ≡ false
      → let out = recover codec formatter failure_type panicked u in
        Is500 u.writer out.writer
        × ((more : List Report) × (out.reports ≡ (u.reports ++ told u) ++ more))
  recover-unwritten-Panics u h =
      let (more, e) =
        write_resolved-Adds codec formatter failure_type unexpected (report recovered u) in
      (
        recover-unwritten u h,
        (
          more,
          ap (λ (v : World). v.reports) (recover_step u h)
              ∙ e
              ∙ ap (λ l. l ++ more) (report-told u),
        ),
      )

  -- Recovery around a handler. With no panic it changes nothing of what the handler did. A panic is
  -- always told to the handler of errors, before anything else is; the response is then left as
  -- the handler made it if one of its calls began it, with a status, a body or a flush, or by taking
  -- the connection over, and it is a 500 failure, the only response, if none did.
  pub recover_panics_cases :
      (has_flusher has_hijacker : Bool) (actions : List Action) (w : World)
      → let recovered_with =
          recover_panics codec formatter failure_type has_flusher has_hijacker actions in
        let out = recovered_with panicked w in
        let u = on_writer (run (capability_writer has_flusher has_hijacker) actions) (guarded w) in
        (recovered_with returned w ≡ u)
        × (((any (begins has_flusher has_hijacker) actions ≡ true)
              × (out.writer ≡ u.writer)
              × (out.reports ≡ w.reports ++ told w))
            ⊎ ((any (begins has_flusher has_hijacker) actions ≡ false)
                × Is500 u.writer out.writer
                × ((more : List Report) × (out.reports ≡ (w.reports ++ told w) ++ more))))
  unfolding recover_panics
  recover_panics_cases has_flusher has_hijacker actions w =
      let u = on_writer (run (capability_writer has_flusher has_hijacker) actions) (guarded w) in
      let counted = run-has_written has_flusher has_hijacker actions (guarded w).writer refl in
      (
        recover_returned u,
        elim (Bool-cases (any (begins has_flusher has_hijacker) actions)) [
          | inl e ↦
              let (kept, reports) = recover-written-Panics u (ground (arith, counted)) in
              inl (e, kept, reports)
          | inr e ↦
              let (response, reports) = recover-unwritten-Panics u (ground (arith, counted)) in
              inr (e, response, reports)
        ],
      )
