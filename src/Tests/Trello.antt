-- ===== src/Tests/Trello.antt =====
-- Runs of the Trello client and of the tunnel's start.
use mathlib.Core.List.{Perm}
use trello_openclaw_webhook.Prelude.{
  ℕ, suc, zero, ◌≤◌, ◌≡◌, ◌≢◌, refl, sym, ap, ◌∙◌, Bool, true, false, ◌||◌, Option, none, some,
  List, [], ◌∷◌, ◌++◌, Str, bytes, ◌==◌, ◌⊎◌, inl, inr, arith, if◌then◌else◌, All, length, eq_iff,
}
use trello_openclaw_webhook.Trello.{
  Card, Comment, Webhook, Error, Answer, response, status_error, request_failed,
}
use trello_openclaw_webhook.Trello.Comments.{
  Decoder, RawAction, fetch_comment_actions, list_comments_since,
}
use trello_openclaw_webhook.Trello.Comments.Ends.{fetch_comment_actions-Ended, Ended}
use trello_openclaw_webhook.Trello.Comments.Sorted.{
  list_comments_since-IsAscending, IsAscending, IsSince,
}
use trello_openclaw_webhook.Trello.Tools.{CardClient, MoveParams, MoveResult, trello_card_move}
use trello_openclaw_webhook.Trello.Tools.Moved.{trello_card_move-IsDone, IsDone, IsTarget}
use trello_openclaw_webhook.Tests.Kanban.{lower}
use trello_openclaw_webhook.Trello.Webhooks.{WebhookClient, reconcile_board_webhook}
use trello_openclaw_webhook.Tunnel.{
  Waiting, retry_from, start_tunnel_and_reconcile, delete_gateway_created_webhook, Started,
}
use trello_openclaw_webhook.Tunnel.Retry.{retry_from-Recovers}
use trello_openclaw_webhook.Tunnel.Ownership.{WebhookLaws, delete_gateway_created_webhook-start}

-- A body is a list of actions, one byte each: its id and its time.
abbrev actions : Str → List Str
actions [] = []
actions (b ∷ body) = (b ∷ []) ∷ actions body

abbrev action : Str → Option RawAction
action [] = none
action (b ∷ _) = some (record {
  id = b ∷ [];
  date = b ∷ [];
  text = [];
  creator_id = [];
  full_name = [];
  username = [];
  id_member_creator = [];
})

abbrev first : Str → Option ℕ
first [] = none
first (b ∷ _) = some b

abbrev decoder : Decoder
decoder = record { items = λ body. some (actions body); action = action; parse_time = first }

abbrev answers : ℕ → Str → Answer
answers n before = response 200 (some (bytes "cab"))

abbrev copies : ℕ → Str
copies zero = []
copies (suc n) = b'd' ∷ copies n

-- A full page, and then a short one.
abbrev two_pages : ℕ → Str → Answer
two_pages zero before = response 200 (some (copies 1000))
two_pages (suc n) before = answers n before

fetched_length : Option (Error ⊎ List Comment) → ℕ
fetched_length none = 0
fetched_length (some (inl err)) = 0
fetched_length (some (inr all)) = length all

-- The second page is asked for.
both_pages : fetched_length (fetch_comment_actions decoder two_pages true) ≡ 1003
unfolding fetched_length fetch_comment_actions ◌==◌
both_pages = refl

fetch_comment_actions-Ended_example :
    Ended decoder two_pages true (fetch_comment_actions decoder two_pages true)
fetch_comment_actions-Ended_example = fetch_comment_actions-Ended decoder two_pages true

abbrev said : ℕ → Comment
said b = record { id = b ∷ []; text = []; by = []; by_id = []; at = b; username = [] }

list_comments_since-IsAscending_example :
    (out : List Comment) × (list_comments_since decoder answers (bytes "c1") (some b'a')
      ≡ some (inr out))
    × IsAscending out
    × All (IsSince (some b'a')) out
    × ((rest : List Comment) × Perm (out ++ rest) (said b'c' ∷ said b'a' ∷ said b'b' ∷ [])
        × All (λ (a : Comment). ¬ IsSince (some b'a') a) rest)
unfolding fetch_comment_actions ◌==◌
list_comments_since-IsAscending_example =
    list_comments_since-IsAscending decoder answers (bytes "c1") (some b'a')
      (said b'c' ∷ said b'a' ∷ said b'b' ∷ []) (λ e. absurd (ground arith)) refl

-- A server with webhooks whose first requests fail.
record Server : Type 0 where
  hooks : List Webhook
  failures : ℕ

abbrev has_id : List Webhook → Str → Bool
has_id [] id = false
has_id (hook ∷ hooks) id = hook.id == id || has_id hooks id

abbrev without : Str → List Webhook → List Webhook
without id [] = []
without id (hook ∷ hooks) =
    let rest = without id hooks in if hook.id == id then rest else hook ∷ rest

without-has_id :
    (gone id : Str) (hooks : List Webhook)
    → gone ≢ id
    → has_id hooks id ≡ true
    → has_id (without gone hooks) id ≡ true
without-has_id gone id [] other h = absurd (ground arith)
without-has_id gone id (hook ∷ hooks) other h =
    ground
      (arith, without-has_id gone id hooks, eq_iff hook.id id, eq_iff hook.id gone, eq_iff gone id)

abbrev unreachable : Error
unreachable = status_error 400 (bytes "VALIDATOR_URL_NOT_REACHABLE")

abbrev list_with : ℕ → List Webhook → Server × (Error ⊎ List Webhook)
list_with zero hooks = (record { hooks = hooks; failures = 0 }, inr hooks)
list_with (suc n) hooks = (record { hooks = hooks; failures = n }, inl unreachable)

abbrev hook_for : (board_id callback_url description : Str) → Webhook
hook_for board_id callback_url description = record {
  id = bytes "w_new";
  description = description;
  callback_url = callback_url;
  id_model = board_id;
  active = true;
}

abbrev create_with : Webhook → Server → Bool → Server × (Error ⊎ Webhook)
create_with hook s true = (s, inl request_failed)
create_with hook s false = (record { hooks = hook ∷ s.hooks; failures = s.failures }, inr hook)

abbrev server : WebhookClient
server = record {
  State = Server;
  list_token_webhooks = λ token s. list_with s.failures s.hooks;
  update_webhook_callback = λ webhook_id callback_url s. (s, none);
  create_token_webhook = λ token board_id callback_url description s.
      create_with (hook_for board_id callback_url description) s (has_id s.hooks (bytes "w_new"));
  delete_webhook = λ token webhook_id s.
      (record { hooks = without webhook_id s.hooks; failures = s.failures }, none);
}

list_with-hooks : (n : ℕ) (hooks : List Webhook) → (list_with n hooks).0.hooks ≡ hooks
list_with-hooks zero hooks = refl
list_with-hooks (suc n) hooks = refl

create_with-keeps :
    (hook : Webhook) (s : Server) (taken : Bool) (id : Str)
    → has_id s.hooks id ≡ true
    → has_id (create_with hook s taken).0.hooks id ≡ true
create_with-keeps hook s true id h = h
create_with-keeps hook s false id h = ground arith

create_with-new :
    (hook : Webhook) (s : Server) (taken : Bool) (made : Webhook)
    → has_id s.hooks hook.id ≡ taken
    → (create_with hook s taken).1 ≡ inr made
    → has_id s.hooks made.id ≡ false
create_with-new hook s true made free h = absurd (ground arith)
create_with-new hook s false made free h =
    ap (λ (r : Error ⊎ Webhook). elim r [ inl _ ↦ false | inr w ↦ has_id s.hooks w.id ]) (sym h)
    ∙ free

abbrev server_laws : WebhookLaws server
server_laws = record {
  registered = λ s id. has_id s.hooks id;
  list-keeps =
      λ token id s h. ap (λ hooks. has_id hooks id) (list_with-hooks s.failures s.hooks) ∙ h;
  update-keeps = λ webhook_id callback_url id s h. h;
  create-keeps = λ token board_id callback_url description id s h.
      create_with-keeps (hook_for board_id callback_url description) s
        (has_id s.hooks (bytes "w_new")) id h;
  create-new = λ token board_id callback_url description s hook h.
      create_with-new (hook_for board_id callback_url description) s
        (has_id s.hooks (bytes "w_new")) hook refl h;
  delete-keeps = λ token webhook_id id s other h. without-has_id webhook_id id s.hooks other h;
}

abbrev waiting : Waiting
waiting = record { canceled_at = λ attempt. false; error_field = λ body. none }

abbrev other_hook : Webhook
other_hook = record {
  id = bytes "w_1";
  description = [];
  callback_url = bytes "https://a";
  id_model = bytes "b2";
  active = true;
}

abbrev failing : Server
failing = record { hooks = other_hook ∷ []; failures = 2 }

abbrev recovered : Server
recovered = record {
  hooks = hook_for (bytes "b1") (bytes "https://t") (bytes "jjc-gateway") ∷ other_hook ∷ [];
  failures = 0;
}

retry_from-Recovers_example :
    retry_from server waiting (bytes "t") (bytes "b1") (bytes "https://t") 3 1 failing ≡ record {
      state = recovered;
      waits = 500 ∷ 1000 ∷ [];
      outcome = some (inr (bytes "w_new", true));
    }
unfolding reconcile_board_webhook
    trello_openclaw_webhook.Trello.Webhooks.is_webhook_validator_retryable ◌==◌
retry_from-Recovers_example =
    retry_from-Recovers server waiting (bytes "t") (bytes "b1") (bytes "https://t") 2 3 failing
      recovered (bytes "w_new", true) (unreachable, refl, refl, (unreachable, refl, refl, refl))
      (λ attempt. refl) (omega arith)

abbrev started : Started server
started = record {
  state = recovered;
  webhook_id = bytes "w_new";
  created_now = true;
  callback_url = bytes "https://t";
  provider_stopped = false;
  failure = none;
}

delete_gateway_created_webhook-start_example :
    has_id
      (delete_gateway_created_webhook server (bytes "t") (bytes "w_new") true recovered).0.hooks
      (bytes "w_1")
    ≡ true
unfolding start_tunnel_and_reconcile ◌==◌
delete_gateway_created_webhook-start_example =
    delete_gateway_created_webhook-start server server_laws (bytes "t") (bytes "b1") (bytes "w_1")
      waiting (bytes "cloudflared") [] (inr (bytes "https://t")) 3 failing started refl refl

abbrev at_work : CardClient
at_work = record {
  get_card = λ id. inr (record {
    id = id;
    name = [];
    desc = [];
    first_line = [];
    id_list = bytes "l1";
    id_board = bytes "b1";
  });
  get_card_list = λ id. inl request_failed;
  list_board_lists = λ id. inr (
      record { id = bytes "l1"; name = bytes "Plan" }
      ∷ record { id = bytes "l2"; name = bytes "Done" }
      ∷ []);
  move_card = λ card_id target. none;
  add_comment = λ card_id text. inl request_failed;
  get_latest_comment = λ card_id. inl request_failed;
  list_comments_since = λ card_id since. inl request_failed;
}

abbrev to_done : MoveParams
to_done = record { card_id = bytes "c1"; target_list_id = []; target_list_name = bytes " done" }

abbrev done_result : MoveResult
done_result = record {
  from = record { id = bytes "l1"; name = [] };
  to = record { id = bytes "l2"; name = bytes "Done" };
}

trello_card_move-IsDone_example :
    (card : Card) × (at_work.get_card (bytes "c1") ≡ inr card)
    × IsDone lower at_work first to_done card
        (trello_card_move lower at_work first to_done)
        done_result
    × IsTarget lower at_work first to_done card (bytes "l2")
unfolding trello_card_move ◌==◌ trello_openclaw_webhook.Prelude.trim_space
trello_card_move-IsDone_example =
    trello_card_move-IsDone lower at_work first to_done done_result refl
