-- ===== src/Error.antt =====
-- crates/openfs-core/src/error.rs: the errors of backends and of the VFS. The texts that `thiserror`
-- derives for display are not modelled.
use open_fs.Prelude.{Bool, true, false, ◌≡◌, refl, ◌⊎◌, inl, inr}
use open_fs.Prelude.Text.{Str}

-- `std::io::ErrorKind`: the kinds that the program tests for, and the rest
pub data ErrorKind : Type 0 where
  connection_refused connection_reset connection_aborted timed_out interrupted : ErrorKind
  other_kind : ErrorKind

pub record IoError : Type 0 where
  pub kind : ErrorKind
  pub message : Str

pub data BackendError : Type 0 where
  not_found : Str → BackendError
  not_a_directory : Str → BackendError
  path_traversal : Str → BackendError
  permission_denied : Str → BackendError
  precondition_failed : Str → Str → Str → BackendError
  connection_failed : Str → Str → BackendError
  timeout : Str → Str → BackendError
  io : IoError → BackendError
  other : Str → BackendError

-- what stands in the box of `VfsError::Backend`: a `BackendError`, or an error of another type
pub data Boxed : Type 0 where
  backend_error : BackendError → Boxed
  another_error : Str → Boxed

pub data VfsError : Type 0 where
  no_mount : Str → VfsError
  read_only : Str → VfsError
  not_found : Str → VfsError
  backend : Boxed → VfsError
  io : IoError → VfsError
  config : Str → VfsError
  watch : Str → VfsError
  indexing : Str → VfsError

-- the kinds of the `matches!` in `is_transient` and in `is_transient_error`
unfoldable pub transient_kind : ErrorKind → Bool
transient_kind connection_refused = true
transient_kind connection_reset = true
transient_kind connection_aborted = true
transient_kind timed_out = true
transient_kind interrupted = true
transient_kind other_kind = false

unfoldable pub is_transient : BackendError → Bool
unfolding transient_kind
is_transient (connection_failed b s) = true
is_transient (timeout o p) = true
is_transient (io e) = transient_kind e.kind
is_transient (not_found p) = false
is_transient _ = false

-- `impl From<BackendError> for VfsError`
unfoldable pub from_backend : BackendError → VfsError
from_backend (not_found path) = not_found path
from_backend (io e) = io e
from_backend e = backend (backend_error e)

pub data Result {ℓ} (E : Type 0) (A : Type ℓ) : Type ℓ where
  ok : A → Result E A
  err : E → Result E A

infixl 5 ◌>>=◌ ◌>>◌
abbrev pub ◌>>=◌ {ℓ κ} :
    {E : Type 0} {A : Type ℓ} {B : Type κ} → Result E A → (A → Result E B) → Result E B
ok a >>= f = f a
err e >>= f = err e

abbrev pub ◌>>◌ {ℓ} : {E : Type 0} {B : Type ℓ} → Result E (Unit {0}) → Result E B → Result E B
m >> k = m >>= λ _. k

abbrev pub map_err {ℓ} : {E F : Type 0} {A : Type ℓ} → (E → F) → Result E A → Result F A
map_err f (ok a) = ok a
map_err f (err e) = err (f e)

pub Result-cases {ℓ} :
    {E : Type 0} {A : Type ℓ} (r : Result E A) → ((a : A) × (r ≡ ok a)) ⊎ ((e : E) × (r ≡ err e))
Result-cases (ok a) = inl (a, refl)
Result-cases (err e) = inr (e, refl)
