-- ===== src/Fault.antt =====
-- Go errors as trees: what the sources build with errors.New, fmt.Errorf, errors.Join and the
-- error types they test for, and the walk that errors.Is and errors.As make (http.go, twirp.go,
-- pg/pg.go). A nil error is `none`. Of a
-- message that a format string makes, the constant text is kept and the values are left out.
use elephantine.Prelude.{
  ℕ, ◌≡◌, ◌⊎◌, inl, inr, refl, String, Bool, true, false, List, Option, none, some, is_some,
}
use elephantine.Prelude.Lists.{or_else}

-- HTTPError: the reader of the body is its text; a nil header and a nil body are `none`.
pub record HttpError : Type 0 where
  pub status : String
  pub status_code : ℕ
  pub header : Option (List (String × List String))
  pub body : Option String

-- pgx.ErrNoRows, pgx.ErrTxClosed, ErrNoAuthorization and http.ErrServerClosed.
pub data Sentinel : Type 0 where
  no_rows tx_closed no_authorization server_closed : Sentinel

pub data Fault : Type 0 where
  text : String → Fault
  sentinel : Sentinel → Fault
  http : HttpError → Fault
  twirp : (code message : String) → Fault
  constraint : String → Fault
  wrap : String → Fault → Fault
  join : Fault → Fault → Fault

pub data Result {ℓ} (A : Type ℓ) : Type ℓ where
  ok : A → Result A
  err : Fault → Result A

pub Result-cases {ℓ} :
    {A : Type ℓ} (r : Result A) → ((a : A) × (r ≡ ok a)) ⊎ ((e : Fault) × (r ≡ err e))
Result-cases (ok a) = inl (a, refl)
Result-cases (err e) = inr (e, refl)

-- errors.As: the first error of the tree, in pre-order, that `pick` recognises.
unfoldable pub find {ℓ} : {A : Type ℓ} → (Fault → Option A) → Fault → Option A
find pick (wrap s e) = or_else (pick (wrap s e)) (find pick e)
find pick (join e f) = or_else (pick (join e f)) (or_else (find pick e) (find pick f))
find pick (text s) = pick (text s)
find pick (sentinel s) = pick (sentinel s)
find pick (http h) = pick (http h)
find pick (twirp c m) = pick (twirp c m)
find pick (constraint c) = pick (constraint c)

abbrev pub same : Sentinel → Sentinel → Bool
same no_rows no_rows = true
same tx_closed tx_closed = true
same no_authorization no_authorization = true
same server_closed server_closed = true
same _ _ = false

abbrev pub as_sentinel : Sentinel → Fault → Option (Unit {0})
as_sentinel s (sentinel t) = elim (same s t) [ true ↦ some tt | false ↦ none ]
as_sentinel s _ = none

abbrev pub as_http : Fault → Option HttpError
as_http (http h) = some h
as_http _ = none

abbrev pub as_twirp : Fault → Option (String × String)
as_twirp (twirp c m) = some (c, m)
as_twirp _ = none

abbrev pub as_constraint : Fault → Option String
as_constraint (constraint c) = some c
as_constraint _ = none

-- errors.Is(err, target) for the errors that the sources compare with.
unfoldable pub is : Fault → Sentinel → Bool
unfolding find
is e s = is_some (find (as_sentinel s) e)

-- errors.Join: nil errors are dropped.
abbrev pub errors_join : Option Fault → Option Fault → Option Fault
errors_join none b = b
errors_join (some a) none = some a
errors_join (some a) (some b) = some (join a b)
