-- ===== src/Gc/Progress/Work.antt =====
-- do/repo/catalog/gcOperation.ts: the reports of a worker from the planned closure to the end.
use git_on_cloudflare.Base.{
  ℕ, Bool, false, not, ◌&&◌, ◌||◌, Option, none, some, Text, text_eq, if◌then◌else◌, ltb, leb, ◌==◌,
  any, every, length, is_empty, is_some, some_and,
}
use git_on_cloudflare.Pack.Bits.{is_safe_integer}
use git_on_cloudflare.Repo.State.{
  PackCatalogRow, GcOperation, GcPhase, GcSnapshot, GcClosure, GcRewriteIdentity, GcRewrite,
  NativeReceiveProcessResult,
}
use git_on_cloudflare.Gc.Operation.{RejectReason}
use git_on_cloudflare.Gc.Progress.Kinds.{Moved, refused, moved, is_rewrite, is_index, is_discard}

-- /^[a-f0-9]{n}$/.
abbrev is_hex_code : ℕ → Bool
is_hex_code c = (leb 97 c && leb c 102) || (leb 48 c && leb c 57)

abbrev is_hex : ℕ → Text → Bool
is_hex n text = length text == n && every is_hex_code text

-- A text that is there and not empty.
abbrev pub non_empty : Option Text → Bool
non_empty none = false
non_empty (some text) = not (is_empty text)

abbrev is_source : Option Text → Option GcSnapshot → Bool
is_source (some key) (some source) =
    any (λ (r : PackCatalogRow). text_eq r.pack_key key) source.source_packs
is_source _ _ = false

unfoldable pub plan_is_invalid : GcClosure → Option Text → GcOperation → Bool
plan_is_invalid closure retained operation =
    not (is_safe_integer closure.object_count)
    || (not (is_hex 64 closure.object_set_sha256)
        || (non_empty retained && not (is_source retained operation.snapshot)))

-- Nothing is to be rewritten.
abbrev pub needs_no_output : GcClosure → Option Text → Bool
needs_no_output closure retained = non_empty retained || closure.object_count == 0

unfoldable pub record_plan : GcClosure → Option Text → GcOperation → Moved
record_plan closure retained operation =
    if not (is_rewrite operation.phase) || is_some operation.closure
    then refused RejectReason.phase_mismatch
    else if plan_is_invalid closure retained operation
    then refused RejectReason.invalid_input
    else moved (record operation {
      closure = some closure;
      retained_pack_key = retained;
      phase = if needs_no_output closure retained then GcPhase.publish else operation.phase;
    })

unfoldable pub same_identity : GcRewriteIdentity → GcRewriteIdentity → Bool
same_identity a b = a.pack_bytes == b.pack_bytes && text_eq a.pack_sha1 b.pack_sha1

unfoldable pub identity_is_invalid : GcRewriteIdentity → Bool
identity_is_invalid identity =
    not (is_safe_integer identity.pack_bytes)
    || (ltb identity.pack_bytes 32 || not (is_hex 40 identity.pack_sha1))

unfoldable pub record_rewrite_intent : GcRewriteIdentity → GcOperation → Moved
record_rewrite_intent identity operation =
    if not (is_rewrite operation.phase) || not (is_some operation.closure)
    then refused RejectReason.phase_mismatch
    else if identity_is_invalid identity
    then refused RejectReason.invalid_input
    else if some_and operation.rewrite_intent (λ intent. not (same_identity intent identity))
    then refused RejectReason.invalid_input
    else moved (record operation { rewrite_intent = some identity })

unfoldable pub complete_rewrite :
    Option GcRewriteIdentity → GcRewriteIdentity → Text → GcOperation → Moved
complete_rewrite none identity etag operation = refused RejectReason.phase_mismatch
complete_rewrite (some intent) identity etag operation =
    if not (is_rewrite operation.phase)
    then refused RejectReason.phase_mismatch
    else if not (same_identity intent identity) || is_empty etag
    then refused RejectReason.invalid_input
    else moved (record operation {
      rewrite = some (record { identity = identity; etag = etag });
      phase = GcPhase.index;
    })

unfoldable pub record_rewrite_complete : GcRewriteIdentity → Text → GcOperation → Moved
record_rewrite_complete identity etag operation =
    complete_rewrite operation.rewrite_intent identity etag operation

-- What the native processor made is what was planned and uploaded.
unfoldable pub fits_plan : Text → GcRewriteIdentity → GcClosure → NativeReceiveProcessResult → Bool
fits_plan id identity closure result =
    text_eq result.operation_id id
    && (text_eq result.pack_sha1 identity.pack_sha1
        && (result.pack_bytes == identity.pack_bytes
            && (result.object_count == closure.object_count
                && some_and result.object_set_sha256 (λ h. text_eq h closure.object_set_sha256))))

unfoldable pub complete_native :
    Option GcRewrite → Option GcClosure → NativeReceiveProcessResult → GcOperation → Moved
complete_native none closure result operation = refused RejectReason.phase_mismatch
complete_native (some rewrite) none result operation = refused RejectReason.phase_mismatch
complete_native (some rewrite) (some closure) result operation =
    if not (is_index operation.phase)
    then refused RejectReason.phase_mismatch
    else if not (fits_plan operation.id rewrite.identity closure result)
    then refused RejectReason.invalid_input
    else moved (record operation { native_result = some result; phase = GcPhase.publish })

unfoldable pub record_native_complete : NativeReceiveProcessResult → GcOperation → Moved
record_native_complete result operation =
    complete_native operation.rewrite operation.closure result operation

unfoldable pub record_discarded : ℕ → GcOperation → Moved
record_discarded now operation =
    if not (is_discard operation.phase)
      || (is_some operation.commit || not (some_and operation.discard_after (λ at. leb at now)))
    then refused RejectReason.phase_mismatch
    else moved (record operation { phase = GcPhase.blocked })

unfoldable pub record_blocked : Text → GcOperation → Moved
record_blocked reason operation =
    if is_some operation.rewrite_intent
      || (is_some operation.rewrite
          || (is_some operation.native_result || is_some operation.commit))
    then refused RejectReason.phase_mismatch
    else moved (record operation { phase = GcPhase.blocked; blocked_reason = some reason })
