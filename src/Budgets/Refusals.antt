-- ===== src/Budgets/Refusals.antt =====
-- What `enforce` of crates/heterion-router-gateway/src/budgets.rs refuses and what it lets pass.
use heterion_router.Prelude.{
  ℕ, ◌≡◌, refl, sym, Bool, true, false, not, Option, none, some, Text, if◌then◌else◌,
}
use heterion_router.Auth
use heterion_router.Auth.{
  AuthKey, Authenticated, Admission, Rejection, admitted, rejected, from_request_parts,
}
use heterion_router.Budgets.Windows.{IsMap}
use heterion_router.Budgets.Judge.{Floats, Store}
use heterion_router.Budgets.Enforce.{
  Request, State, Response, Answer, served, unauthenticated, refused, is_billable, pass, meter,
  by_key, by_admission, by_db, enforce,
}
use heterion_router.Budgets.Fairness.{Reason, Room, Fair, meter-Fair}

module _ {F Db : Type 0} (floats : Floats F) (store : Store Db F) (auth_store : Auth.Store Db)
    (require_auth : Bool) (now : ℕ) (next : State Db → State Db × Response F) where
  module _ (request : Request) (s : State Db) (u : IsMap s.windows) where
    -- Who was refused, and why.
    pub record Grounds (code : Text) (retry_after : Option ℕ) : Type 0 where
      pub billable : is_billable request.method request.path ≡ true
      pub before : Db
      pub after : Db
      pub key : AuthKey
      pub database : s.db ≡ some before
      pub authenticated :
          from_request_parts auth_store before require_auth request.authorization
          ≡ (after, admitted (record { key = some key }))
      pub reason :
          Reason floats store auth_store require_auth now next after s.windows key code retry_after

    -- Whom the authentication turned away.
    pub record Denied (rejection : Rejection) : Type 0 where
      pub asked : is_billable request.method request.path ≡ true
      pub queried : Db
      pub left : Db
      pub connected : s.db ≡ some queried
      pub turned_away :
          from_request_parts auth_store queried require_auth request.authorization
          ≡ (left, rejected rejection)

    -- A key that was let in had room.
    abbrev pub Roomy : Type 0
    Roomy =
        (before after : Db) (key : AuthKey)
        → is_billable request.method request.path ≡ true
        → s.db ≡ some before
        → from_request_parts auth_store before require_auth request.authorization
          ≡ (after, admitted (record { key = some key }))
        → Room floats store auth_store require_auth now next after s.windows key

    abbrev pub Justified : State Db × Answer F → Type 0
    Justified (t, served response) = Roomy
    Justified (t, unauthenticated r) = Denied r
    Justified (t, refused code retry_after) = Grounds code retry_after

    pass-Justified :
        (x : State Db × Response F)
        → Roomy
        → Justified (pass floats store auth_store require_auth now next x)
    pass-Justified (t, response) roomy = roomy

    same_key :
        (db after db2 after2 : Db) (key key2 : AuthKey)
        → s.db ≡ some db
        → from_request_parts auth_store db require_auth request.authorization
          ≡ (after, admitted (record { key = some key }))
        → s.db ≡ some db2
        → from_request_parts auth_store db2 require_auth request.authorization
          ≡ (after2, admitted (record { key = some key2 }))
        → (after ≡ after2) × (key ≡ key2)
    same_key db after db2 after2 key key2 d a d2 a2 =
        let e : db ≡ db2 = cc (d, d2) in (cc (e, a, a2), cc (e, a, a2))

    keyless :
        (db after db2 after2 : Db) (key : AuthKey)
        → s.db ≡ some db
        → from_request_parts auth_store db require_auth request.authorization
          ≡ (after, admitted (record { key = none }))
        → s.db ≡ some db2
        → from_request_parts auth_store db2 require_auth request.authorization
          ≡ (after2, admitted (record { key = some key }))
        → ⊥
    keyless db after db2 after2 key d a d2 a2 = let e : db ≡ db2 = cc (d, d2) in cc (e, a, a2)

    Room-Roomy :
        (db after : Db) (key : AuthKey)
        → s.db ≡ some db
        → from_request_parts auth_store db require_auth request.authorization
          ≡ (after, admitted (record { key = some key }))
        → Room floats store auth_store require_auth now next after s.windows key
        → Roomy
    Room-Roomy db after key d a f db2 after2 key2 b2 d2 a2 =
        let (same_after, same) = same_key db after db2 after2 key key2 d a d2 a2 in
        rw (sym same_after, sym same) f

    Fair-Justified :
        (db after : Db) (key : AuthKey) (x : State Db × Answer F)
        → is_billable request.method request.path ≡ true
        → s.db ≡ some db
        → from_request_parts auth_store db require_auth request.authorization
          ≡ (after, admitted (record { key = some key }))
        → Fair floats store auth_store require_auth now next after s.windows key x
        → Justified x
    Fair-Justified db after key (t, served response) b d a f = Room-Roomy db after key d a f
    Fair-Justified db after key (t, unauthenticated r) b d a f = absurd f
    Fair-Justified db after key (t, refused code retry_after) b d a f = record {
      billable = b;
      before = db;
      after = after;
      key = key;
      database = d;
      authenticated = a;
      reason = f;
    }

    key-Justified :
        (db after : Db) (k : Option AuthKey)
        → is_billable request.method request.path ≡ true
        → s.db ≡ some db
        → from_request_parts auth_store db require_auth request.authorization
          ≡ (after, admitted (record { key = k }))
        → Justified (
            by_key floats store auth_store require_auth now next
              (record s { db = some after })
              after
              k)
    key-Justified db after none b d a =
        pass-Justified (next (record s { db = some after }))
          (λ db2 after2 key b2 d2 a2. absurd (keyless db after db2 after2 key d a d2 a2))
    key-Justified db after (some key) b d a =
        Fair-Justified db after key
          (meter floats store auth_store require_auth now next (record s { db = some after }) after
            key)
          b d a
          (meter-Fair floats store auth_store require_auth now next after key
            (record s { db = some after }) u)

    admission-Justified :
        (db : Db) (x : Db × Admission Authenticated)
        → is_billable request.method request.path ≡ true
        → s.db ≡ some db
        → from_request_parts auth_store db require_auth request.authorization ≡ x
        → Justified (by_admission floats store auth_store require_auth now next s x)
    admission-Justified db (after, rejected r) b d a = record {
      asked = b;
      queried = db;
      left = after;
      connected = d;
      turned_away = a;
    }
    admission-Justified db (after, admitted auth) b d a = key-Justified db after auth.key b d a

    db-Justified :
        (o : Option Db)
        → is_billable request.method request.path ≡ true
        → s.db ≡ o
        → Justified (by_db floats store auth_store require_auth now next s request.authorization o)
    db-Justified none b d =
        pass-Justified (next s) (λ before after key b2 d2 a2. absurd (cc (d, d2)))
    db-Justified (some db) b d =
        admission-Justified db (from_request_parts auth_store db require_auth request.authorization)
          b d refl

    billable-Justified :
        (b : Bool)
        → is_billable request.method request.path ≡ b
        → Justified (
            if not b
            then pass floats store auth_store require_auth now next (next s)
            else by_db floats store auth_store require_auth now next s request.authorization s.db)
    billable-Justified true e = db-Justified s.db e refl
    billable-Justified false e =
        pass-Justified (next s) (λ before after key b2 d2 a2. absurd (cc (e, b2)))

    -- Let the map of windows have each key once. A request is refused only when it goes to an endpoint
    -- that bills and has an authenticated key, and then for one of two reasons. Either the key has a ceiling,
    -- and its window (a new one, where the last has ended) has counted that many requests already: the
    -- answer then names the seconds until the window ends, and 1 at least. Or the key's spending has
    -- reached a cap of its budget row. A request is turned away as unauthenticated only when it goes
    -- to such an endpoint and the authentication rejects it. Everything else is served, and a
    -- request to such an endpoint with an authenticated key only when the key has no ceiling or its
    -- window has counted fewer requests than that.
    pub enforce-Justified :
        Justified (enforce floats store auth_store require_auth now next request s)
    unfolding enforce
    enforce-Justified = billable-Justified (is_billable request.method request.path) refl
