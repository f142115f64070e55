-- ===== src/Protocol/Exchange.antt =====
-- What `Send` gets back from a receiver.
use p2p_storage.Base.{
  ℕ, zero, suc, ◌+◌, ◌-◌, ◌≤◌, ◌<◌, ◌≡◌, refl, ap, ◌∙◌, ◌↔◌, inr, true, none, some, [], ◌∷◌, ◌++◌,
  arith, dec_lt, dec_le, length, take, string_key, nat_key, bytes_key,
}
use p2p_storage.Base.Bytes.{Bytes}
use p2p_storage.Base.Int.{ℤ, to_ℕ}
use p2p_storage.Middleware.Limiter.{Limiter, release}
use p2p_storage.Protocol.{
  Codec, Handled, handler_error, no_reply, reply, encode, read_message, write_reply, respond,
  handle_stream, read_response, send,
}
use p2p_storage.Protocol.Slots.{acquire_free, acquire_full, release_held}

take-append_long :
    (n : ℕ) (xs ys : Bytes) → length xs ≤ n → take n (xs ++ ys) ≡ xs ++ take (n - length xs) ys
take-append_long n [] ys h = let same : n - 0 ≡ n = omega arith in rw same refl
take-append_long zero (x ∷ xs) ys h = absurd (omega (arith, h))
take-append_long (suc n) (x ∷ xs) ys h =
    let same : suc n - length (x ∷ xs) ≡ n - length xs = omega arith in
    rw same (ap (◌∷◌ x) (take-append_long n xs ys (omega (arith, h))))

take-append_short : (n : ℕ) (xs ys : Bytes) → n < length xs → take n (xs ++ ys) ≡ take n xs
take-append_short n [] ys h = absurd (omega (arith, h))
take-append_short zero (x ∷ xs) ys h = refl
take-append_short (suc n) (x ∷ xs) ys h = ap (◌∷◌ x) (take-append_short n xs ys (omega (arith, h)))

-- A message arrives exactly if its JSON is within the limit.
abbrev pub Fits : {M : Type 0} → Codec M → ℤ → M → Type 0
Fits codec max_message_size m = length (codec.json m) ≤ to_ℕ max_message_size

module _ {M : Type 0} (codec : Codec M) (max_message_size : ℤ)
    (decode_json : (m : M) (rest : Bytes) → codec.decode (codec.json m ++ rest) ≡ some m)
    (decode_cut : (m : M) (k : ℕ)
      → k < length (codec.json m)
      → codec.decode (take k (codec.json m)) ≡ none)
    (decode_nothing : codec.decode [] ≡ none) where
  read_message-Fits :
      (m : M)
      → Fits codec max_message_size m
      → read_message codec max_message_size (encode codec max_message_size m) ≡ some m
  unfolding read_message encode
  read_message-Fits m fits =
      rw (read_message, take-append_long (to_ℕ max_message_size) (codec.json m) (10 ∷ []) fits)
        (decode_json m _)

  read_message_cut :
      (m : M)
      → ¬ Fits codec max_message_size m
      → read_message codec max_message_size (encode codec max_message_size m) ≡ none
  unfolding read_message encode
  read_message_cut m cut =
      let short : to_ℕ max_message_size < length (codec.json m) = omega (arith, cut) in
      rw (read_message, take-append_short (to_ℕ max_message_size) (codec.json m) (10 ∷ []) short)
        (decode_cut m (to_ℕ max_message_size) short)

  -- Whatever `o` is, a response is what the handler replied, if it fits.
  response_lem :
      (o : Handled M) (r : M)
      → (read_response codec max_message_size (write_reply codec max_message_size o) ≡ inr r)
        ↔ ((o ≡ reply r) × Fits codec max_message_size r)
  unfolding write_reply
  response_lem handler_error r = (λ h. absurd (cc h), λ h. absurd (cc h.0))
  response_lem no_reply r = (λ h. absurd (cc h), λ h. absurd (cc h.0))
  response_lem (reply m) r = elim (dec_le (length (codec.json m)) (to_ℕ max_message_size)) [
    | yes fits ↦
        rw (read_response, read_message-Fits m fits)
          (
            λ h. let same : m ≡ r = cc h in rw (← same) (refl, fits),
            λ h. let same : m ≡ r = cc h.0 in ap inr same,
          )
    | no cut ↦
        rw (read_response, read_message_cut m cut)
          (λ h. absurd (cc h), λ h. let same : m ≡ r = cc h.0 in absurd (cut (rw same h.1)))
  ]

  respond_lem :
      (handler : M → Handled M) (m r : M)
      → (read_response codec max_message_size (
            respond codec max_message_size handler
              (read_message codec max_message_size (encode codec max_message_size m)))
          ≡ inr r)
        ↔ (Fits codec max_message_size m × (handler m ≡ reply r) × Fits codec max_message_size r)
  unfolding respond
  respond_lem handler m r = elim (dec_le (length (codec.json m)) (to_ℕ max_message_size)) [
    | yes fits ↦
        let l = response_lem (handler m) r in
        rw (read_message-Fits m fits) (λ h. let (a, b) = l.0 h in (fits, a, b), λ h. l.1 (h.1, h.2))
    | no cut ↦ rw (read_message_cut m cut) (λ h. absurd (cc h), λ h. absurd (cut h.0))
  ]

  pub send_lem :
      (handler : M → Handled M) (l : Limiter) (m r : M)
      → let (l', result) = send codec max_message_size true handler l m in
        ((result ≡ inr r) ↔ (
          (l.held < l.max_concurrent)
          × Fits codec max_message_size m
          × (handler m ≡ reply r)
          × Fits codec max_message_size r))
        × (l' ≡ some l)
  unfolding send handle_stream
  send_lem handler l m r = elim (dec_lt l.held l.max_concurrent) [
    | yes free ↦
        let given : release (record l { held = l.held + 1 }) ≡ some l =
          release_held (record l { held = l.held + 1 }) (omega arith)
          ∙ (let same : l.held + 1 - 1 ≡ l.held = omega arith in rw same refl) in
        let e = respond_lem handler m r in
        rw (acquire_free l free, given)
          ((λ h. let (a, b, c) = e.0 h in (free, a, b, c), λ h. e.1 (h.1, h.2, h.3)), refl)
    | no full ↦ rw (acquire_full l full) ((λ h. absurd (cc h), λ h. absurd (full h.0)), refl)
  ]
