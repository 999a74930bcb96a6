-- ===== src/RequestId/Carried.antt =====
-- How far the identifier of a request is carried.
use go_video_transcode_servi.Common.{
  Text, text_eq, false, List, [], ◌∷◌, ◌++◌, ◌≡◌, ◌≢◌, ◌∙◌, refl, sym, ap, arith, Bool-cases, inl,
  inr, none, some, Error, Result, Op, trim_space, trim_space-trim_space, is_empty, if◌then◌else◌,
  if_elim,
}
use go_video_transcode_servi.RequestId.{
  CallContext, metadata_key, first_or_empty, nonempty_or, context_with_request_id,
  request_id_from_context, Logged, call_log, unary_client_interceptor, unary_server_interceptor,
}

not_empty : (s : Text) → is_empty s ≡ false → s ≢ []
not_empty [] h = absurd (ground arith)
not_empty (c ∷ s) h = λ e. cc

-- The values of a key among the pairs of the metadata that goes out, in order.
abbrev values_of : List (Text × Text) → Text → List Text
values_of [] k = []
values_of ((j, v) ∷ rest) k =
    let later = values_of rest k in if text_eq j k then v ∷ later else later

-- The context of a call at the server: no values of keys, and the metadata of the client's.
abbrev arrive : CallContext → CallContext
arrive ctx = record {
  typed_id = none;
  request_id = none;
  outgoing = [];
  incoming = some (values_of ctx.outgoing);
}

values_of-append :
    (a b : List (Text × Text)) (k : Text) → values_of (a ++ b) k ≡ values_of a k ++ values_of b k
values_of-append [] b k = refl
values_of-append ((j, v) ∷ a) b k = elim (Bool-cases (text_eq j k)) [
  | inl own ↦ rw own (ap (λ l. v ∷ l) (values_of-append a b k))
  | inr other ↦ rw other (values_of-append a b k)
]

-- An identifier in use: not empty, and with no blanks around it.
abbrev pub IsId : Text → Type 0
IsId id = (id ≢ []) × (trim_space id ≡ id)

read_back : (id : Text) (other : Text) → id ≢ [] → nonempty_or (some id) other ≡ id
read_back [] other h = absurd (h refl)
read_back (c ∷ s) other h = refl

pub not_blank : (id : Text) → id ≢ [] → is_empty id ≡ false
not_blank [] h = absurd (h refl)
not_blank (c ∷ s) h = refl

used-IsId :
    (uuid : Text) (ctx : CallContext) (id : Text)
    → IsId uuid
    → IsId (context_with_request_id uuid ctx id).1
unfolding context_with_request_id
used-IsId uuid ctx id h =
    if_elim IsId (is_empty (trim_space id)) (λ _. h)
      (λ more. (not_empty (trim_space id) more, trim_space-trim_space id))

-- An identifier in use is put into a context as it is.
pub with_id :
    (uuid : Text) (ctx : CallContext) (id : Text)
    → IsId id
    → (context_with_request_id uuid ctx id).1 ≡ id
unfolding context_with_request_id
with_id uuid ctx id (n, t) = simp (t, not_blank id n) refl

pub read_with :
    (uuid : Text) (ctx : CallContext) (id : Text)
    → (context_with_request_id uuid ctx id).1 ≢ []
    → request_id_from_context (some (context_with_request_id uuid ctx id).0)
      ≡ (context_with_request_id uuid ctx id).1
unfolding request_id_from_context context_with_request_id
read_with uuid ctx id n = read_back _ _ n

-- The identifier that is put into a context is read from it again.
request_id_from_context-with :
    (uuid : Text) (ctx : CallContext) (id : Text)
    → IsId uuid
    → let (ctx', used) = context_with_request_id uuid ctx id in
      IsId used × (request_id_from_context (some ctx') ≡ used)
request_id_from_context-with uuid ctx id h =
    let u = used-IsId uuid ctx id h in (u, read_with uuid ctx id u.0)

-- What the metadata that goes out with a context says of its identifier: nothing, or first of all the
-- identifier that is read from the context.
pub data Consistent (ctx : CallContext) : Type 0 where
  none_sent : values_of ctx.outgoing metadata_key ≡ [] → Consistent ctx
  own_sent :
      (rest : List Text)
      → IsId (request_id_from_context (some ctx))
      → values_of ctx.outgoing metadata_key ≡ request_id_from_context (some ctx) ∷ rest
      → Consistent ctx

-- The values behind those of the context.
sent_values :
    (uuid : Text) (ctx : CallContext) (id : Text)
    → let (ctx', used) = context_with_request_id uuid ctx id in
      values_of ctx'.outgoing metadata_key ≡ values_of ctx.outgoing metadata_key ++ used ∷ []
unfolding context_with_request_id text_eq
sent_values uuid ctx id = values_of-append ctx.outgoing _ metadata_key

-- Any identifier may be put into a context that sends none, such as those of an HTTP request, of a
-- message and of a call that comes in.
pub with-Consistent :
    (uuid : Text) (ctx : CallContext) (id : Text)
    → IsId uuid
    → values_of ctx.outgoing metadata_key ≡ []
    → Consistent (context_with_request_id uuid ctx id).0
with-Consistent uuid ctx id h e =
    let (u, r) = request_id_from_context-with uuid ctx id h in
    own_sent [] (rw r u) (sent_values uuid ctx id ∙ rw (r, e) refl)

-- The server reads the identifier that the client has sent.
arrived :
    (uuid : Text) (ctx : CallContext)
    → IsId uuid
    → Consistent ctx
    → let (ctx', used) = context_with_request_id uuid ctx (request_id_from_context (some ctx)) in
      request_id_from_context (some (arrive ctx')) ≡ used
unfolding request_id_from_context
arrived uuid ctx h (none_sent e) =
    let id = request_id_from_context (some ctx) in
    let used = (context_with_request_id uuid ctx id).1 in
    ap first_or_empty (sent_values uuid ctx id ∙ ap (λ l. l ++ used ∷ []) e)
arrived uuid ctx h (own_sent rest v e) =
    let id = request_id_from_context (some ctx) in
    let used = (context_with_request_id uuid ctx id).1 in
    ap first_or_empty (sent_values uuid ctx id ∙ ap (λ l. l ++ used ∷ []) e)
    ∙ sym (with_id uuid ctx id v)

-- A call with both interceptors, over a network that hands the metadata on.
abbrev pub call :
    {S A : Type 0}
    → Text
    → Text
    → Text
    → (CallContext → Op S (Result Error A))
    → CallContext
    → Op S (Result Error A × Logged)
call uuid server_uuid method handler = unary_client_interceptor uuid method λ ctx s.
    let r = unary_server_interceptor server_uuid method handler (arrive ctx) s in (r.0.0, r.1)

-- A call from a context whose metadata says nothing else of the identifier reaches the handler with a
-- context from which the identifier is read under which the client logs the call: that of the client's
-- context, or a new one of the client's.
pub call-carries :
    {S A : Type 0} (uuid server_uuid method : Text) (handler : CallContext → Op S (Result Error A))
    (ctx : CallContext) (s : S)
    → IsId uuid
    → Consistent ctx
    → let used = (context_with_request_id uuid ctx (request_id_from_context (some ctx))).1 in
      (at_handler : CallContext) × (request_id_from_context (some at_handler) ≡ used)
      × (call uuid server_uuid method handler ctx s ≡ (
        ((handler at_handler s).0, call_log used method (handler at_handler s).0),
        (handler at_handler s).1,
      ))
unfolding unary_client_interceptor unary_server_interceptor
call-carries uuid server_uuid method handler ctx s h e =
    let id = request_id_from_context (some ctx) in
    let sent = context_with_request_id uuid ctx id in
    let got = request_id_from_context (some (arrive sent.0)) in
    let same = arrived uuid ctx h e in
    let u : IsId got = rw same (used-IsId uuid ctx id h) in
    let kept = with_id server_uuid (arrive sent.0) got u in
    (
      (context_with_request_id server_uuid (arrive sent.0) got).0,
      read_with server_uuid (arrive sent.0) got (rw kept u.0) ∙ kept ∙ same,
      refl,
    )
