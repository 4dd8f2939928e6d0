-- ===== src/Encode/Armor.antt =====
-- The armor of enc_armor against dec_unarmor.
use mathlib.Core.List.{flatten}
use munge.Prelude.{
  ℕ, ◌<◌, ◌≡◌, refl, ap, ◌∙◌, arith, List, [], ◌∷◌, ◌++◌, append-nil, append_assoc, length,
  take_all, take-append_self, ltb, Bool-cases, inl, inr, none, some,
}
use munge.Prelude.Bytes.{All, IsByte}
use munge.Base64.{
  Ctx, Update, init, encode_update, encode_final, encode_block, encode_length, decode_length,
}
use munge.Base64.Stream.{IsReady, encode_stream, encode_stream-encode_block, encode_update_counts}
use munge.Base64.RoundTrip.{decode_block-encode_block}
use munge.Base64.Bounds.{length-encode_block}
use munge.Decode.Unpack.{
  munge_cred_prefix, munge_cred_suffix, cut_suffix, strip_prefix, skip_space, is_space,
  request_text, unarmor, unarmor_from, unarmor_text, decode_armor, set_outer,
}
use munge.Encode.Pack.{advance, armor_chunks, armor_text, armor}
use munge.Message.{Msg}
use munge.Cred.{Call, Cred, State, Site, ok, armored, unarmored}

-- Memory is there at every call, as large as it was asked for.
pub record HasMemory (call : Call) : Type 0 where
  pub block : Site → ℕ → List ℕ
  pub given : (site : Site) (n : ℕ) → call.malloc site n ≡ some (block site n)
  pub size : (site : Site) (n : ℕ) → length (block site n) ≡ n

advance_by :
    (mem out : List ℕ) (n k : ℕ) (u : Update)
    → u.dstlen ≡ some k
    → advance mem (out, n) u ≡ (out ++ u.written, k)
unfolding advance
advance_by mem out n k u h = rw h

encode_final_counts : (x : Ctx) → (k : ℕ) × ((encode_final x).dstlen ≡ some k)
unfolding encode_final
encode_final_counts x = elim (Bool-cases (ltb 0 x.num)) [
  | inl e ↦ rw e (_, refl)
  | inr e ↦ rw e (_, refl)
]

armor_chunks-encode_stream :
    (stale mem : List ℕ) (a b c : ℕ) (outer mac inner : List ℕ)
    → length stale ≡ 3
    → (armor_chunks stale mem (a ∷ outer) (b ∷ mac) (c ∷ inner)).0
      ≡ munge_cred_prefix ++ encode_stream (init stale) ((a ∷ outer) ∷ (b ∷ mac) ∷ (c ∷ inner) ∷ [])
unfolding armor_chunks encode_stream
armor_chunks-encode_stream stale mem a b c outer mac inner h =
    let r0 : IsReady (init stale) = unfold init in record { few = omega arith; size = h } in
    let r1 = encode_update_counts (init stale) a outer r0 in
    let u1 = encode_update (init stale) (a ∷ outer) in
    let r2 = encode_update_counts u1.ctx b mac r1.1 in
    let u2 = encode_update u1.ctx (b ∷ mac) in
    let r3 = encode_update_counts u2.ctx c inner r2.1 in
    let u3 = encode_update u2.ctx (c ∷ inner) in
    ap (λ p. (advance mem (advance mem (advance mem p u2) u3) (encode_final u3.ctx)).0)
      (advance_by mem munge_cred_prefix _ _ u1 r1.0)
    ∙ (ap (λ p. (advance mem (advance mem p u3) (encode_final u3.ctx)).0)
          (advance_by mem _ _ _ u2 r2.0)
        ∙ (ap (λ p. (advance mem p (encode_final u3.ctx)).0) (advance_by mem _ _ _ u3 r3.0)
            ∙ (ap (λ p. p.0)
                  (advance_by mem _ _ _ (encode_final u3.ctx) (encode_final_counts u3.ctx).1)
                ∙ simp append_assoc)))

cut_suffix_last : (body : List ℕ) → cut_suffix (body ++ munge_cred_suffix ∷ 0 ∷ []) ≡ some body
unfolding cut_suffix
cut_suffix_last [] = refl
cut_suffix_last (c ∷ body) = rw (cut_suffix_last body)

roomy : (src : List ℕ) → length src < decode_length (length (encode_block src))
unfolding decode_length encode_length
roomy src = omega (arith, length-encode_block src)

decode_armored :
    (call : Call) (s : State) (src : List ℕ)
    → HasMemory call
    → All IsByte src
    → decode_armor s
        (encode_block src)
        (call.malloc unarmored (decode_length (length (encode_block src))))
      ≡ ok (record s {
        msg = record s.msg { payload = none; data_len = 0 };
        cred = record s.cred { outer = src };
      })
unfolding decode_armor set_outer
decode_armored call s src rich bytes =
    let n = decode_length (length (encode_block src)) in
    let room : length src < length (rich.block unarmored n) =
      rw (rich.size unarmored n) (roomy src) in
    let (rest, runs, size) = decode_block-encode_block src (rich.block unarmored n) bytes room in
    rw (rich.given unarmored n, decode_armor, runs, set_outer, take-append_self src (0 ∷ rest))

-- The armored text of `enc_armor` is the prefix, base64 of the three parts as one block, the suffix and
-- a NUL.
armor_text-encode_block :
    (stale mem : List ℕ) (c : Cred)
    → length stale ≡ 3
    → 0 < length c.outer
    → 0 < length c.mac
    → 0 < length c.inner
    → armor_text stale mem c
      ≡ munge_cred_prefix
        ++ (encode_block (c.outer ++ (c.mac ++ c.inner)) ++ munge_cred_suffix ∷ 0 ∷ [])
unfolding armor_text flatten
armor_text-encode_block stale mem c h p q r = go c.outer c.mac c.inner p q r
  where
    go :
        (outer mac inner : List ℕ)
        → 0 < length outer
        → 0 < length mac
        → 0 < length inner
        → (armor_chunks stale mem outer mac inner).0 ++ munge_cred_suffix ∷ 0 ∷ []
          ≡ munge_cred_prefix
            ++ (encode_block (outer ++ (mac ++ inner)) ++ munge_cred_suffix ∷ 0 ∷ [])
    go [] mac inner p q r = absurd (omega arith)
    go (a ∷ outer) [] inner p q r = absurd (omega arith)
    go (a ∷ outer) (b ∷ mac) [] p q r = absurd (omega arith)
    go (a ∷ outer) (b ∷ mac) (d ∷ inner) p q r =
        ap (λ l. l ++ munge_cred_suffix ∷ 0 ∷ [])
          (armor_chunks-encode_stream stale mem a b d outer mac inner h
            ∙ ap (λ l. munge_cred_prefix ++ l)
                (encode_stream-encode_block stale ((a ∷ outer) ∷ (b ∷ mac) ∷ (d ∷ inner) ∷ []) h
                  ∙ ap (λ l. encode_block ((a ∷ outer) ++ ((b ∷ mac) ++ l)))
                      (append-nil (d ∷ inner))))
        ∙ append_assoc munge_cred_prefix (encode_block ((a ∷ outer) ++ ((b ∷ mac) ++ (d ∷ inner))))
            (munge_cred_suffix ∷ 0 ∷ [])

strip_prefix_self :
    (rest : List ℕ) → strip_prefix munge_cred_prefix (munge_cred_prefix ++ rest) ≡ some rest
unfolding strip_prefix
strip_prefix_self rest = refl

unarmor_from_prefix :
    (call : Call) (s : State) (rest : List ℕ)
    → unarmor_from call s (skip_space (munge_cred_prefix ++ rest))
      ≡ unarmor_text call s (munge_cred_prefix ++ rest)
unfolding unarmor_from skip_space is_space
unarmor_from_prefix call s rest = refl

unarmor_text-body :
    (call : Call) (s : State) (body : List ℕ)
    → unarmor_from call s (skip_space (munge_cred_prefix ++ (body ++ munge_cred_suffix ∷ 0 ∷ [])))
      ≡ decode_armor s body (call.malloc unarmored (decode_length (length body)))
unfolding unarmor_text
unarmor_text-body call s body =
    unarmor_from_prefix call s (body ++ munge_cred_suffix ∷ 0 ∷ [])
    ∙ rw
        (strip_prefix_self (body ++ munge_cred_suffix ∷ 0 ∷ []), unarmor_text, cut_suffix_last body)

unarmor_all :
    (call : Call) (s : State) (text : List ℕ)
    → s.msg.payload ≡ some text
    → s.msg.data_len ≡ length text
    → unarmor call s ≡ unarmor_from call s (skip_space text)
unfolding unarmor request_text
unarmor_all call s text h k = ap (λ l. unarmor_from call s (skip_space l)) (request s.msg text h k)
  where
    request :
        (m : Msg) (text : List ℕ)
        → m.payload ≡ some text
        → m.data_len ≡ length text
        → request_text m ≡ text
    request m text h k = rw (h, k) (take_all (length text) text (omega arith))

-- What `enc_armor` armors, `dec_unarmor` unarmors, from any state that has this text as its request
-- data: the decoder gets the outer data, the MAC and the inner data one after the other, and the
-- request data is gone. Conditions: memory is there on both sides, the base64 context has three bytes,
-- the three parts are bytes, and none is empty.
pub unarmor-armor :
    (call call' : Call) (sent : State)
    → HasMemory call
    → HasMemory call'
    → length call.stale ≡ 3
    → All IsByte (sent.cred.outer ++ (sent.cred.mac ++ sent.cred.inner))
    → 0 < length sent.cred.outer
    → 0 < length sent.cred.mac
    → 0 < length sent.cred.inner
    → (packed : State) × (armor call sent ≡ ok packed)
      × ((s : State)
          → s.msg.payload ≡ some packed.cred.outer
          → s.msg.data_len ≡ length packed.cred.outer
          → unarmor call' s
            ≡ ok (record s {
              msg = record s.msg { payload = none; data_len = 0 };
              cred = record s.cred {
                outer = sent.cred.outer ++ (sent.cred.mac ++ sent.cred.inner);
              };
            }))
unfolding armor
unarmor-armor call call' sent rich rich' stale bytes p q r =
    rw (rich.given armored _, armor)
      (
        _,
        refl,
        λ s text size.
            unarmor_all call' s _ text size
            ∙ (ap (λ l. unarmor_from call' s (skip_space l))
                  (armor_text-encode_block call.stale _ sent.cred stale p q r)
                ∙ (unarmor_text-body call' s _ ∙ decode_armored call' s _ rich' bytes)),
      )
