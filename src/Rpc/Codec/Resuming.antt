-- ===== src/Rpc/Codec/Resuming.antt =====
-- Bytes that come in pieces are decoded as if they had come at once.
use consentry.Common.{
  ℕ, ◌≡◌, ◌≢◌, ap, inl, inr, refl, sym, ◌∙◌, Bool-cases, ◌++◌, Option, none, some, arith,
}
use consentry.Common.Result.{Result, ok, err}
use consentry.Common.Slices.{take}
use consentry.Rpc.Protocol.{ProtocolId, RpcError}
use consentry.Rpc.Codec.{Bytes, IoError, Varint, Outside, handle_length, after_length}
use consentry.Rpc.Codec.Requests.{
  InboundCodec, set_len, decode_request, decode_body, read_request, is_meta_data, handle_request,
  handle_v1_request, handle_v2_request, decoded,
}

-- A length that is kept is the one that the whole buffer has.
pub handle_length-resumes :
    (v : Varint) (len : Option ℕ) (s more : Bytes) {n : ℕ} {kept : Option ℕ} {rest : Bytes}
    → handle_length v len s ≡ (ok (some n), kept, rest)
    → (kept ≡ some n) × (handle_length v len (s ++ more) ≡ (ok (some n), some n, rest ++ more))
unfolding handle_length
handle_length-resumes v (some l) s more h = grind arith
handle_length-resumes v none s more {n} {kept} {rest} h =
    grind (arith, v.decode-append s more n rest)

-- Where the length is not there yet, nothing is changed.
pub handle_length-waits :
    (v : Varint) (len : Option ℕ) (s : Bytes) {kept : Option ℕ} {rest : Bytes}
    → handle_length v len s ≡ (ok none, kept, rest)
    → (kept ≡ none) × (rest ≡ s) × (len ≡ none)
unfolding handle_length
handle_length-waits v (some l) s h = cc
handle_length-waits v none s h = grind arith

-- A decoder that keeps what it found out waits with nothing lost, if its body waits with nothing
-- changed.
module _ {C A : Type 0} (get : C → Option ℕ) (set : C → Option ℕ → C)
    (body : C → Bytes → ℕ → Result RpcError (Option A) × C × Bytes)
    (get-set : (c : C) (k : Option ℕ) → get (set c k) ≡ k)
    (set-set : (c : C) (k l : Option ℕ) → set (set c k) l ≡ set c l)
    (waits : (c : C) (s : Bytes) (n : ℕ) (c' : C) (s' : Bytes)
      → body c s n ≡ (ok none, c', s')
      → (c' ≡ c) × (s' ≡ s)) where
  after_length-set :
      (c : C) (k : Option ℕ) (r : Result RpcError (Option ℕ) × Option ℕ × Bytes)
      → after_length set body (set c k) r ≡ after_length set body c r
  after_length-set c k (err e, len, s) = rw (set-set c k len) refl
  after_length-set c k (ok none, len, s) = rw (set-set c k len) refl
  after_length-set c k (ok (some n), len, s) = rw (set-set c k len) refl

  same_codec :
      (v : Varint) (c : C) (k : Option ℕ) (s t : Bytes) {c' : C}
      → c' ≡ set c k
      → handle_length v k s ≡ handle_length v (get c) t
      → after_length set body c' (handle_length v (get c') s)
        ≡ after_length set body c (handle_length v (get c) t)
  same_codec v c k s t {c'} e h =
      ap (λ x. after_length set body x (handle_length v (get x) s)) e
      ∙ (ap (λ k'. after_length set body (set c k) (handle_length v k' s)) (get-set c k)
          ∙ (after_length-set c k (handle_length v k s) ∙ ap (after_length set body c) h))

  pub after_length-resumes :
      (v : Varint) (c : C) (s more : Bytes) (r : Result RpcError (Option ℕ) × Option ℕ × Bytes)
      {c' : C} {s' : Bytes}
      → handle_length v (get c) s ≡ r
      → after_length set body c r ≡ (ok none, c', s')
      → after_length set body c' (handle_length v (get c') (s' ++ more))
        ≡ after_length set body c (handle_length v (get c) (s ++ more))
  unfolding handle_length
  after_length-resumes v c s more (err e, len, rest) h d = cc
  after_length-resumes v c s more (ok none, len, rest) {c'} {s'} h d =
      let (kept, unread, unknown) = handle_length-waits v (get c) s h in
      let e : s' ≡ rest = sym (ap (λ x. x.2) d) in
      same_codec v c len (s' ++ more) (s ++ more) (sym (ap (λ x. x.1) d)) (cc)
  after_length-resumes v c s more (ok (some n), len, rest) {c'} {s'} h d =
      let (e, f) = waits (set c len) rest n c' s' d in
      let (kept, again) = handle_length-resumes v (get c) s more h in
      same_codec v c len (s' ++ more) (s ++ more) e (rw (kept, f, again) refl)

  -- While it waits, the codec is the same but for the length.
  pub after_length-keeps :
      (c : C) (r : Result RpcError (Option ℕ) × Option ℕ × Bytes) {c' : C} {s' : Bytes}
      → after_length set body c r ≡ (ok none, c', s')
      → (k : Option ℕ) × (c' ≡ set c k)
  after_length-keeps c (err e, len, rest) d = cc
  after_length-keeps c (ok none, len, rest) d = (len, sym (ap (λ x. x.1) d))
  after_length-keeps c (ok (some n), len, rest) {c'} {s'} d =
      (len, (waits (set c len) rest n c' s' d).0)

module _ {Block : Type 0} (o : Outside Block) where
  pub handle_request-done : (id : ProtocolId) (bytes : Bytes) → handle_request o id bytes ≢ ok none
  unfolding handle_request handle_v1_request handle_v2_request decoded
  handle_request-done id bytes h = ground arith

  read_request-waits :
      (c : InboundCodec) (s : Bytes) (n : ℕ) (r : Result IoError Bytes × ℕ) {c' : InboundCodec}
      {s' : Bytes}
      → read_request o c s n r ≡ (ok none, c', s')
      → (c' ≡ c) × (s' ≡ s)
  unfolding read_request
  read_request-waits c s n (ok bytes, m) {c'} {s'} h =
      absurd (handle_request-done c.protocol bytes (ap (λ x. x.0) h))
  read_request-waits c s n (err e, m) h = (grind arith, grind arith)

  decode_body-waits :
      (c : InboundCodec) (s : Bytes) (n : ℕ) (c' : InboundCodec) (s' : Bytes)
      → decode_body o c s n ≡ (ok none, c', s')
      → (c' ≡ c) × (s' ≡ s)
  unfolding decode_body
  decode_body-waits c s n c' s' h = grind (
    arith,
    read_request-waits c s n (o.snappy.read_exact (take (o.snappy.max_compress_len n) s) n)
        {c' = c'} {s' = s'},
  )

  -- A request that is not complete is waited for: whatever comes next, decoding what is left with
  -- the codec as it was left is decoding all the bytes at once.
  pub decode_request-resumes :
      (c : InboundCodec) (s more : Bytes) {c' : InboundCodec} {s' : Bytes}
      → decode_request o c s ≡ (ok none, c', s')
      → decode_request o c' (s' ++ more) ≡ decode_request o c (s ++ more)
  unfolding decode_request
  decode_request-resumes c s more {c'} {s'} h =
      elim (Bool-cases (is_meta_data o c.protocol.message_name)) [
        | inl y ↦ absurd (ground arith)
        | inr n ↦
            let d : after_length set_len (decode_body o) c (handle_length o.varint c.len s)
                ≡ (ok none, c', s') =
              ground arith in
            let (k, kept) =
              after_length-keeps (λ x. x.len) set_len (decode_body o) (λ x l. refl) (λ x l m. refl)
                decode_body-waits c _ d in
            let p = ap (λ x. is_meta_data o x.protocol.message_name) kept in
            rw (n, p ∙ n)
              (after_length-resumes (λ x. x.len) set_len (decode_body o) (λ x l. refl)
                (λ x l m. refl) decode_body-waits o.varint c s more _ refl d)
      ]
