-- ===== src/Trello.antt =====
-- internal/app/trelloclient/client.go: the data of the Trello client and its requests. `Client` is
-- the methods of one request, `Comments` the comment history, `Webhooks` the board's webhook, and
-- `Tools` and `CardInfo` what is built on the client (internal/app/trello_tools.go, cardinfo.go).
pub mod Client
pub mod Comments
pub mod Webhooks
pub mod Tools
pub mod CardInfo
use trello_openclaw_webhook.Prelude.{
  ℕ, Bool, Option, none, some, ◌∷◌, ◌++◌, Str, bytes, ◌⊎◌, inl, inr, if◌then◌else◌, nat_eq, ltb,
  length, take,
}

pub record Card : Type 0 where
  pub id : Str
  pub name : Str
  pub desc : Str
  pub first_line : Str
  pub id_list : Str
  pub id_board : Str

-- `List`
pub record ListRef : Type 0 where
  pub id : Str
  pub name : Str

-- `at` is in nanoseconds.
pub record Comment : Type 0 where
  pub id : Str
  pub text : Str
  pub by : Str
  pub by_id : Str
  pub at : ℕ
  pub username : Str

pub record Webhook : Type 0 where
  pub id : Str
  pub description : Str
  pub callback_url : Str
  pub id_model : Str
  pub active : Bool

-- An empty argument, a request that fails, a body that cannot be read, a status that is not the
-- wanted one (`StatusError`), a body that cannot be decoded, and `ErrNoComments`.
pub data Error : Type 0 where
  empty_argument : (name : Str) → Error
  request_failed read_failed decode_failed no_comments client_is_nil canceled : Error
  status_error : (status : ℕ) (body : Str) → Error

-- What a call of the SDK gives: an error, or a response whose body may fail to be read.
pub data Answer : Type 0 where
  no_response : Answer
  response : (status : ℕ) (body : Option Str) → Answer

unfoldable pub read_and_check : Answer → (want : ℕ) → Error ⊎ Str
read_and_check no_response want = inl request_failed
read_and_check (response status none) want = inl read_failed
read_and_check (response status (some body)) want =
    if nat_eq status want then inr body else inl (status_error status body)

unfoldable pub preview_body : Str → Str
preview_body body = if ltb 512 (length body) then take 512 body ++ bytes "..." else body
