-- ===== src/Web.antt =====
-- The device's web pages and its bridge port as the setup code talks to them (`token.py`,
-- `provisioning.py`): requests, replies, and programs that send the one and act on the other.
-- What answers the requests is not part of the program: it is a parameter.
pub mod Quote
pub mod Outcomes
use comelit_man.Prelude.{
  Text, ℕ, Bool, true, false, List, [], ◌∷◌, ◌++◌, ◌==◌, Result, token_extraction_error, err, ok,
}
use comelit_man.Bytes.{Bytes}

-- A request of the HTTP session, with its path and query, its form, and what is done on the
-- bridge's own port.
pub data Request : Type 0 where
  post : Text → Text → Request
  get : Text → Request
  connect_bridge open_uaut disconnect_bridge : Request
  activate : Text → Text → Request

-- `resp.status`, `resp.text()` and `resp.read()`.
pub record Reply : Type 0 where
  pub status : ℕ
  pub text : Text
  pub content : Bytes

-- The reply to the last of the requests sent so far, or the exception that waiting for it raises.
abbrev pub Device : Type 0
Device = List Request → Result Reply

-- A program that sends requests: those that were sent, oldest first, and how it ends.
abbrev pub Web : Type 0 → Type 0
Web A = Device → List Request → List Request × Result A

abbrev pub go_on :
    {A B : Type 0} → (A → Web B) → Device → List Request × Result A → List Request × Result B
go_on f d (sent, ok a) = f a d sent
go_on f d (sent, err e) = (sent, err e)

infixl 5 ◌>>=◌ ◌>>◌
unfoldable pub ◌>>=◌ : {A B : Type 0} → Web A → (A → Web B) → Web B
◌>>=◌ m f d sent = go_on f d (m d sent)

abbrev pub ◌>>◌ : {A B : Type 0} → Web A → Web B → Web B
m >> k = m >>= λ _. k

unfoldable pub pure : {A : Type 0} → A → Web A
pure a d sent = (sent, ok a)

-- A value, or the exception it stands for.
unfoldable pub lift : {A : Type 0} → Result A → Web A
lift r d sent = (sent, r)

unfoldable pub ask : Request → Web Reply
ask q d sent = (sent ++ q ∷ [], d (sent ++ q ∷ []))

-- `if not …: raise TokenExtractionError(…)`
unfoldable pub require : Bool → Web (Unit {0})
require true d sent = (sent, ok tt)
require false d sent = (sent, err token_extraction_error)

abbrev pub is_ok : Reply → Bool
is_ok r = r.status == 200
