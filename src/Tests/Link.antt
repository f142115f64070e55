-- ===== src/Tests/Link.antt =====
-- A link for the tests: a codec that ends a message with a 0, and a network that works.
use p2p_storage.Base.{
  ℕ, zero, suc, ◌<◌, ◌≡◌, refl, ap, ◌∙◌, true, Option, none, some, [], ◌∷◌, ◌++◌, arith, length,
  take,
}
use p2p_storage.Base.Bytes.{Bytes}
use p2p_storage.Base.Int.{pos}
use p2p_storage.Protocol.{Codec}
use p2p_storage.FileServer.Messages.{
  Status, success, empty_key, invalid_msg, unknown_type, session_rejected, already_exists, error,
  store_file_resp,
}
use p2p_storage.FileServer.Exchange.{Wire, request, response, Link}
use p2p_storage.FileServer.Exchange.Arrival.{IsJson}

-- The bytes with a 0 behind them, in which they are one more.
abbrev closed : Bytes → Bytes
closed [] = 0 ∷ []
closed (b ∷ bs) = suc b ∷ closed bs

abbrev with_byte : ℕ → Option (Bytes × Bytes) → Option (Bytes × Bytes)
with_byte b none = none
with_byte b (some (bs, rest)) = some (b ∷ bs, rest)

unfoldable pub until : Bytes → Option (Bytes × Bytes)
until [] = none
until (zero ∷ bs) = some ([], bs)
until (suc b ∷ bs) = with_byte b (until bs)

until-closed : (b rest : Bytes) → until (closed b ++ rest) ≡ some (b, rest)
unfolding until
until-closed [] rest = refl
until-closed (c ∷ b) rest = ap (with_byte c) (until-closed b rest)

until_cut : (b : Bytes) (k : ℕ) → k < length (closed b) → until (take k (closed b)) ≡ none
unfolding until
until_cut [] zero h = refl
until_cut [] (suc k) h = absurd (omega (arith, h))
until_cut (c ∷ b) zero h = refl
until_cut (c ∷ b) (suc k) h = ap (with_byte c) (until_cut b k (omega (arith, h)))

abbrev number : Status → ℕ
number success = 0
number empty_key = 1
number invalid_msg = 2
number unknown_type = 3
number session_rejected = 4
number already_exists = 5

abbrev status : ℕ → Status
status zero = success
status (suc zero) = empty_key
status (suc (suc zero)) = invalid_msg
status (suc (suc (suc zero))) = unknown_type
status (suc (suc (suc (suc zero)))) = session_rejected
status (suc (suc (suc (suc (suc n))))) = already_exists

status-number : (s : Status) → status (number s) ≡ s
status-number success = refl
status-number empty_key = refl
status-number invalid_msg = refl
status-number unknown_type = refl
status-number session_rejected = refl
status-number already_exists = refl

abbrev payload : Wire → Bytes
payload (request p) = 0 ∷ closed p.key ++ p.session
payload (response (error s)) = 1 ∷ number s ∷ []
payload (response (store_file_resp key s)) = 2 ∷ number s ∷ key

abbrev requested : Option (Bytes × Bytes) → Option Wire
requested none = none
requested (some (key, session)) = some (request (record { key = key; session = session }))

abbrev parse : Bytes → Option Wire
parse [] = none
parse (zero ∷ bs) = requested (until bs)
parse (suc k ∷ []) = none
parse (suc zero ∷ n ∷ bs) = some (response (error (status n)))
parse (suc (suc k) ∷ n ∷ bs) = some (response (store_file_resp bs (status n)))

parse-payload : (m : Wire) → parse (payload m) ≡ some m
parse-payload (request p) = ap requested (until-closed p.key p.session)
parse-payload (response (error s)) = ap (λ t. some (response (error t))) (status-number s)
parse-payload (response (store_file_resp key s)) =
    ap (λ t. some (response (store_file_resp key t))) (status-number s)

abbrev parsed : Option (Bytes × Bytes) → Option Wire
parsed none = none
parsed (some (bs, rest)) = parse bs

abbrev pub codec : Codec Wire
codec = record { json = λ m. closed (payload m); decode = λ bytes. parsed (until bytes) }

pub codec-IsJson : IsJson codec
unfolding until
codec-IsJson = record {
  decode_json = λ m rest. ap parsed (until-closed (payload m) rest) ∙ parse-payload m;
  decode_cut = λ m k h. ap parsed (until_cut (payload m) k h);
  decode_nothing = refl;
}

abbrev pub link : Link
link = record {
  codec = codec;
  max_message_size = pos 100;
  now = 7;
  sender = "sender";
  opens = true;
  opens_transfer = true;
  is_direct_connection = λ p. true;
  connect_with_hole_punch = λ a. true;
  decode = λ b. some b;
}
