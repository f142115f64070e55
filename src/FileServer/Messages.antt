-- ===== src/FileServer/Messages.antt =====
-- The requests a node answers: `handleMessage` of internal/fileserver/fileserver.go, and
-- `processGet` of internal/fileserver/get.go. What a goroutine is started for is an action of the
-- result. Decoding JSON is a parameter: a payload that does not decode is `none`.
pub mod Accepts
pub mod Flooding
use p2p_storage.Base.{
  ℕ, zero, suc, ◌+◌, ◌-◌, ◌*◌, ◌/◌, ◌%◌, ◌^◌, ◌≤◌, ◌<◌, min, String, ◌≡◌, refl, sym, ap, ◌∙◌, ◌≢◌,
  ◌↔◌, ◌⊎◌, inl, inr, if_pos, if_neg, ite, Bool, true, false, not, ◌&&◌, ◌||◌, Option, none, some,
  List, [], ◌∷◌, ◌++◌, map, arith, dec_lt, dec_le, ℕ_discrete, ltb, leb, ◌==◌, if◌then◌else◌,
  ltb→lt, lt→ltb, leb→le, ==_iff, Bool-cases, Option-cases, length, get_elem?, set, take, drop,
  keep, any, length-append, take-append-drop, length-take, length-drop, take_of_length-le,
  take-append_length, drop-append_length, length-keep-le, keep-append, drop-add,
  take-append-drop-length, drop_of_length-le, string_discrete, Key, string_key, nat_key, bytes_key,
  bytes_discrete,
}
use p2p_storage.Base.Dict.{
  Dict, is_some, filter_value, get, put, remove, get-remove, get-put, get-remove_self,
  get-remove_ne, get-put_self, get-put_ne, length-remove-le, length-remove-lt, length-put-le, IsMap,
  remove-IsMap, put-IsMap, keep-IsMap, get-keep,
}
use p2p_storage.Base.Forall.{All, All-append, All-keep}
use p2p_storage.Base.Bytes.{Bytes}
use p2p_storage.Base.Int.{ℤ, is_non_positive, pred}
use p2p_storage.FileServer.Seen.{SeenMessages, see}
use p2p_storage.FileServer.Selector.{select}
use p2p_storage.Store.Disk.{Disk}
use p2p_storage.Store.Files.{Store, Env, has}

pub data Status : Type 0 where
  success empty_key invalid_msg unknown_type session_rejected already_exists : Status

pub record StoreFilePayload : Type 0 where
  pub key : Bytes
  pub session : Bytes

pub record GetFilePayload : Type 0 where
  pub key : Bytes
  pub msg_id : String
  pub ttl : ℤ
  pub requester_id : Bytes
  pub requester_addrs : List Bytes

pub data Message : Type 0 where
  store_file : Option StoreFilePayload → Message
  get_file : Option GetFilePayload → Message
  unknown invalid : Message

pub data Response : Type 0 where
  error : Status → Response
  store_file_resp : Bytes → Status → Response

-- The connected peers, the keys that someone waits for, and the session of receive mode.
pub record Node : Type 0 where
  pub peers : List Bytes
  pub waiters : Dict Bytes (List ℕ)
  pub session_name : Bytes
  pub seen : SeenMessages
  pub store : Store
  pub disk : Disk

pub data Event : Type 0 where
  get_delivering : String → Bytes → Bytes → Event
  get_received : String → Bytes → ℤ → Event

-- What `processGet` sets off: an event, `deliverToRequester`, and messages to peers.
pub record Actions : Type 0 where
  pub events : List Event
  pub deliver : Option GetFilePayload
  pub forward : List (Bytes × GetFilePayload)

abbrev pub nothing : Actions
nothing = record { events = []; deliver = none; forward = [] }

abbrev pub bytes_eq : Bytes → Bytes → Bool
bytes_eq a b = ite (bytes_discrete a b) true false

-- `SetSession` and `ClearSession`
unfoldable pub set_session : Bytes → Node → Node
set_session name n = record n { session_name = name }

unfoldable pub clear_session : Node → Node
clear_session n = record n { session_name = [] }

-- The message goes to every connected peer.
unfoldable pub broadcast_get : GetFilePayload → Node → List (Bytes × GetFilePayload)
broadcast_get p n = map (λ q. (q, p)) n.peers

module _ (env : Env) where
  unfoldable pub handle_store_file_message : Node → Option StoreFilePayload → Response
  handle_store_file_message n none = error invalid_msg
  handle_store_file_message n (some p) =
      let waiting_for_key = is_some (get p.key n.waiters) in
      if length p.key == 0
      then store_file_resp [] empty_key
      else (if not waiting_for_key
            && not (length n.session_name == 0)
            && not (bytes_eq p.session n.session_name)
          then store_file_resp p.key session_rejected
          else (if has env n.store p.key n.disk
              then store_file_resp p.key already_exists
              else store_file_resp p.key success))

  module _ (intn : ℕ → ℕ → ℕ) where
    -- Where the message goes, with one hop less to go.
    unfoldable pub forward_get : Node → Bytes → GetFilePayload → Actions
    forward_get n sender p =
        let received : List Event = get_received p.msg_id p.key p.ttl ∷ [] in
        if is_non_positive p.ttl
        then record { events = received; deliver = none; forward = [] }
        else (record {
          events = received;
          deliver = none;
          forward = map (λ q. (q, record p { ttl = pred p.ttl })) (select intn n.peers sender 10);
        })

    unfoldable pub process_get : ℕ → Bytes → GetFilePayload → Node → Node × Actions
    process_get now sender p n =
        let (seen, is_new) = see now p.msg_id n.seen in
        let n' : Node = record n { seen = seen } in
        if not is_new
        then (n', nothing)
        else (if has env n.store p.key n.disk
            then (
              n',
              record {
                events = get_delivering p.msg_id p.key p.requester_id ∷ [];
                deliver = some p;
                forward = [];
              },
            )
            else (n', forward_get n' sender p))

    -- The response, if there is one, and the actions.
    unfoldable pub handle_message : ℕ → Bytes → Message → Node → Node × Option Response × Actions
    handle_message now sender (store_file p) n = (n, some (handle_store_file_message n p), nothing)
    handle_message now sender (get_file none) n = (n, none, nothing)
    handle_message now sender (get_file (some p)) n =
        let (n', actions) = process_get now sender p n in (n', none, actions)
    handle_message now sender unknown n = (n, some (error unknown_type), nothing)
    handle_message now sender invalid n = (n, some (error invalid_msg), nothing)
