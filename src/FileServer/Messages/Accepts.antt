-- ===== src/FileServer/Messages/Accepts.antt =====
-- Which files a node accepts.
use p2p_storage.Base.{
  ◌≡◌, refl, ◌≢◌, ◌↔◌, ◌⊎◌, inl, inr, if_pos, if_neg, Bool, true, false, not, ◌&&◌, some, [], ◌∷◌,
  arith, ◌==◌, if◌then◌else◌, Bool-cases, length, string_key, nat_key, bytes_key, bytes_discrete,
}
use p2p_storage.Base.Dict.{is_some, get}
use p2p_storage.Base.Bytes.{Bytes}
use p2p_storage.Store.Files.{Env, has}
use p2p_storage.FileServer.Messages.{
  StoreFilePayload, store_file_resp, success, empty_key, session_rejected, already_exists, Node,
  bytes_eq, handle_store_file_message, set_session, clear_session,
}

-- The tests of the handler, by their outcomes.
outcomes :
    (empty waiting open_ same stored : Bool) (k : Bytes)
    → ((if empty
          then store_file_resp [] empty_key
          else (if not waiting && not open_ && not same
              then store_file_resp k session_rejected
              else (if stored
                  then store_file_resp k already_exists
                  else store_file_resp k success)))
        ≡ store_file_resp k success)
      ↔ ((empty ≡ false) × ((waiting ≡ true) ⊎ ((open_ ≡ true) ⊎ (same ≡ true))) × (stored ≡ false))
outcomes true waiting open_ same stored k = (λ e. absurd (cc e), λ h. absurd (cc h.0))
outcomes false true open_ same true k = (λ e. absurd (cc e), λ h. absurd (cc h.2))
outcomes false true open_ same false k = (λ e. (refl, inl refl, refl), λ h. refl)
outcomes false false true same true k = (λ e. absurd (cc e), λ h. absurd (cc h.2))
outcomes false false true same false k = (λ e. (refl, inr (inl refl), refl), λ h. refl)
outcomes false false false true true k = (λ e. absurd (cc e), λ h. absurd (cc h.2))
outcomes false false false true false k = (λ e. (refl, inr (inr refl), refl), λ h. refl)
outcomes false false false false stored k = (
  λ e. absurd (cc e),
  λ h. elim h.1 [
    | inl e ↦ absurd (cc e)
    | inr o ↦ elim o [ inl e ↦ absurd (cc e) | inr e ↦ absurd (cc e) ]
  ],
)

is_empty_lem : (xs : Bytes) → ((length xs == 0) ≡ true) ↔ (xs ≡ [])
is_empty_lem [] = (λ e. refl, λ e. refl)
is_empty_lem (x ∷ xs) = (λ e. absurd (ground arith), λ e. absurd (cc e))

bytes_eq_lem : (a b : Bytes) → (bytes_eq a b ≡ true) ↔ (a ≡ b)
bytes_eq_lem a b = elim (bytes_discrete a b) [
  | yes e ↦ rw (if_pos (bytes_discrete a b) e) (λ h. e, λ h. refl)
  | no e ↦ rw (if_neg (bytes_discrete a b) e) (λ h. absurd (cc h), λ h. absurd (e h))
]

-- A request to store a file is accepted exactly if it has a key, someone waits for that key or the
-- session is the active one, if there is one, and the store does not have the file.
pub handle_store_file_message_accepts :
    (env : Env) (n : Node) (p : StoreFilePayload)
    → (handle_store_file_message env n (some p) ≡ store_file_resp p.key success) ↔ (
        (p.key ≢ [])
        × ((is_some (get p.key n.waiters) ≡ true)
            ⊎ (n.session_name ≡ [])
            ⊎ (p.session ≡ n.session_name))
        × (has env n.store p.key n.disk ≡ false))
unfolding handle_store_file_message
handle_store_file_message_accepts env n p =
    let waiting = is_some (get p.key n.waiters) in
    let stored = has env n.store p.key n.disk in
    let w =
      outcomes (length p.key == 0) waiting (length n.session_name == 0)
        (bytes_eq p.session n.session_name) stored p.key in
    let empty = is_empty_lem p.key in
    let no_session = is_empty_lem n.session_name in
    let same = bytes_eq_lem p.session n.session_name in
    (
      λ h.
          let (a, b, c) = w.0 h in
          (
            λ e. absurd (cc (a, empty.1 e)),
            elim b [
              | inl x ↦ inl x
              | inr y ↦ elim y [ inl x ↦ inr (inl (no_session.0 x)) | inr x ↦ inr (inr (same.0 x)) ]
            ],
            c,
          ),
      λ (k, b, c). w.1 (
        elim (Bool-cases (length p.key == 0)) [ inl e ↦ absurd (k (empty.0 e)) | inr e ↦ e ],
        elim b [
          | inl x ↦ inl x
          | inr y ↦ elim y [ inl x ↦ inr (inl (no_session.1 x)) | inr x ↦ inr (inr (same.1 x)) ]
        ],
        c,
      ),
    )

-- In a receive session, a request for a key that nobody waits for is accepted only under the name of
-- the session; when the session has ended, under any name.
set_session_accepts :
    (env : Env) (n : Node) (p : StoreFilePayload) (name : Bytes)
    → name ≢ []
    → is_some (get p.key n.waiters) ≡ false
    → handle_store_file_message env (set_session name n) (some p) ≡ store_file_resp p.key success
    → (p.session ≡ name)
      × ((other : StoreFilePayload)
          → other.key ≡ p.key
          → handle_store_file_message env (clear_session (set_session name n)) (some other)
            ≡ store_file_resp other.key success)
unfolding set_session clear_session
set_session_accepts env n p name named nobody h =
    let (some_key, welcome, fresh) =
      (handle_store_file_message_accepts env (set_session name n) p).0 h in
    (
      elim welcome [
        | inl waited ↦ absurd (cc (nobody, waited))
        | inr how ↦ elim how [ inl no_session ↦ absurd (named no_session) | inr same ↦ same ]
      ],
      λ other same.
          (handle_store_file_message_accepts env (clear_session (set_session name n)) other).1
            (rw same some_key, inr (inl refl), rw same fresh),
    )
