-- ===== src/Gc/Retained/Sources.antt =====
-- What the changes of a collection leave of the source packs that it retains:
-- do/repo/catalog/gcCoordination.ts.
use git_on_cloudflare.Base.{ℕ, ◌≡◌, refl, ap, sym, ◌∙◌, false, Option, none, some, arith}
use git_on_cloudflare.Repo.State.{
  RepoState, PackCatalogRow, GcOperation, GcSnapshot, GcCoordination, GcClaim, GcClosure,
}
use git_on_cloudflare.Compaction.Commit.{pack_keys}
use git_on_cloudflare.Gc.Progress.{
  GcProgress, plan, apply_progress, moved, is_queued, record_snapshot, record_plan, report_step,
  record_rewrite_intent, complete_rewrite, record_rewrite_complete, complete_native,
  record_native_complete, record_discarded, record_blocked,
}
use git_on_cloudflare.Gc.Publication.{
  Publication, publication_of, publication_of_parts, with_receipt,
}
use git_on_cloudflare.Gc.Change.{
  Change, unchanged, claimed, given_up, reported, published, accounted, Retaining, same_retained,
  all_retained,
}
use mathlib.Core.Option.{some-injective}

-- A collection that has read its source and retains all packs of it.
pub record RetainsSource (o : GcOperation) : Type 0 where
  pub begun : is_queued o.phase ≡ false
  pub retained :
      (source : GcSnapshot) (c : GcCoordination)
      → o.snapshot ≡ some source
      → o.coordination ≡ some c
      → c.retained_source_pack_keys ≡ pack_keys source.source_packs

-- Behind the snapshot, a report changes neither source nor coordination.
record KeepsParts (o o' : GcOperation) : Type 0 where
  begun : is_queued o'.phase ≡ false
  source : o'.snapshot ≡ o.snapshot
  coordination : o'.coordination ≡ o.coordination

keeps_parts :
    {o o' : GcOperation}
    → is_queued o'.phase ≡ false
    → o'.snapshot ≡ o.snapshot
    → o'.coordination ≡ o.coordination
    → KeepsParts o o'
keeps_parts b e f = record { begun = b; source = e; coordination = f }

reported-KeepsParts :
    (now : ℕ) (claim : GcClaim) (progress : GcProgress) (s : RepoState) (o : GcOperation)
    {o' : GcOperation}
    → is_queued o.phase ≡ false
    → apply_progress now claim progress s o ≡ moved o'
    → KeepsParts o o'
unfolding apply_progress record_snapshot record_plan report_step record_rewrite_intent
    record_rewrite_complete complete_rewrite record_native_complete complete_native record_discarded
    record_blocked
reported-KeepsParts now claim (plan closure retained) s o b e =
    keeps_parts (ground arith) (ground arith) (ground arith)
reported-KeepsParts now claim progress s o b e =
    keeps_parts (ground arith) (ground arith) (ground arith)

parts_coordination :
    (source : Option GcSnapshot) (coordination : Option GcCoordination) (closure : Option GcClosure)
    (o : GcOperation) {p : Publication}
    → publication_of_parts source coordination closure o ≡ some p
    → (source ≡ some p.source) × (coordination ≡ some p.coordination)
unfolding publication_of_parts
parts_coordination none coordination closure o e = absurd (cc)
parts_coordination (some x) none closure o e = absurd (cc)
parts_coordination (some x) (some y) none o e = absurd (cc)
parts_coordination (some x) (some y) (some z) o e = (cc, cc)

pub same_some : {A : Type 0} {a b : A} → some a ≡ some b → a ≡ b
same_some {A} {a} {b} e = some-injective a b e

receipt-RetainsSource :
    (now : ℕ) (target : Option PackCatalogRow) (p : Publication) (o : GcOperation)
    → p.operation ≡ o
    → publication_of o ≡ some p
    → RetainsSource o
    → RetainsSource (with_receipt now target p)
unfolding publication_of
receipt-RetainsSource now target p o own parts h =
    let q = parts_coordination o.snapshot o.coordination o.closure o parts in
    record {
      begun = refl;
      retained = λ source c at there.
          sym (ap (λ x. x.retained_source_pack_keys) (same_some there))
          ∙ h.retained source p.coordination (sym (ap (λ x. x.snapshot) own) ∙ at) q.1;
    }

accounted-RetainsSource :
    (o : GcOperation) (d : GcCoordination)
    → Retaining o d
    → RetainsSource o
    → RetainsSource (record o { coordination = some d })
accounted-RetainsSource o d kept h = record {
  begun = h.begun;
  retained = λ source c at there.
      sym (ap (λ x. x.retained_source_pack_keys) (same_some there)) ∙ of kept source at;
}
  where
    of :
        Retaining o d
        → (source : GcSnapshot) → o.snapshot ≡ some source
        → d.retained_source_pack_keys ≡ pack_keys source.source_packs
    of (same_retained c q e) source at = e ∙ h.retained source c at q
    of (all_retained x q e) source at =
        e ∙ ap (λ (y : GcSnapshot). pack_keys y.source_packs) (same_some (sym q ∙ at))

pub Change-RetainsSource : {o o' : GcOperation} → Change o o' → RetainsSource o → RetainsSource o'
Change-RetainsSource unchanged h = h
Change-RetainsSource (claimed claim now c) h =
    let k = Change-RetainsSource c h in record { begun = k.begun; retained = k.retained }
Change-RetainsSource (given_up at reason early same c) h =
    let k = Change-RetainsSource c h in record { begun = refl; retained = k.retained }
Change-RetainsSource (reported {o = o} now claim progress s e) h =
    let k = reported-KeepsParts now claim progress s o h.begun e in
    record {
      begun = k.begun;
      retained =
          λ source c at there. h.retained source c (sym k.source ∙ at) (sym k.coordination ∙ there);
    }
Change-RetainsSource (published {o = o} now target p early own parts phase) h =
    receipt-RetainsSource now target p o own parts h
Change-RetainsSource (accounted {o = o} d there kept) h = accounted-RetainsSource o d kept h
