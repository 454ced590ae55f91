-- ===== src/Examples.antt =====
-- A small board, a request, and the theorems at them.
mod Chains
mod Starting
mod SignIn
mod Handled
mod Offered
mod Shared
mod Saved
use tdiscuss.Base.{
  ℕ, ◌≤◌, ◌≡◌, ◌≢◌, ◌↔◌, refl, false, true, arith, [], ◌∷◌, none, some, pos, All, Option,
}
use tdiscuss.Text.{Text, codes, is_space, trim_space, replace_rune, replace_pair}
use tdiscuss.Validation.{
  Url, scan, validate_thread_form, validate_thread_post_form, validate_profile_form,
  validate_admin_form,
}
use tdiscuss.Validation.Forms.{
  IsFilled, IsPhoto, IsWindow, thread_form_iff, thread_post_form_iff, profile_form_iff,
  admin_form_iff,
}
use tdiscuss.Sanitize.{sanitize_input}
use tdiscuss.Sanitize.Runs.{Spaces, Paragraphs, sanitize_input-runs}
use tdiscuss.Sanitize.Again.{sanitize_input-again}
use tdiscuss.Sanitize.Laws.{IsSpaced, IsParagraphed, sanitize_input-clean, sanitize_input-null}
use tdiscuss.Store.Tables.{Db, Board}
use tdiscuss.Web.{traced_queries, User, Method, Request, Service}
use tdiscuss.Store.Tables.{row}
use tdiscuss.Store.Threads.{
  UpdateThreadPostParams, UpdateThreadParams, post_matches, thread_matches, update_thread_post,
  update_thread,
}
use tdiscuss.Store.Window.{update_thread_post-unmatched, update_thread-unmatched}
use tdiscuss.Web.Action.{serve}
use tdiscuss.Handlers.Routes.{Endpoint, handle}
use tdiscuss.Access.{Allowed}
use tdiscuss.Base.{◌⊎◌}
use tdiscuss.Web.{traced_queries, status}
use tdiscuss.Handlers.Create.{create_thread_handler}
use tdiscuss.Access.Safe.{Unchanged, handle-Unchanged}
use tdiscuss.Access.Atomic.{create_thread_handler-atomic}
use tdiscuss.Access.Endpoints.{handle-Allowed}

abbrev pub ann : User
ann = record { id = pos 1; email = codes "ann@example.org"; is_admin = false; is_blocked = false }

-- Every text is an address with the scheme http.
abbrev some_url : Text → Option Url
some_url s = some (record { scheme = codes "http"; host = s })

abbrev pub service : Service
service = record {
  markdown = λ s. some s;
  strict = λ s. s;
  body_policy = λ s. s;
  unescape = λ s. s;
  parse_url = some_url;
  renders = λ p. true;
  row_order = λ rows. rows;
  queries = traced_queries;
  version = codes "1";
  git_sha = codes "abc";
}

abbrev pub board : Board
board = record {
  title = codes "Board";
  edit_window = some (pos 900);
  total_members = 1;
  total_threads = 0;
  total_thread_posts = 0;
}

abbrev pub db : Db
db = record {
  members =
      record { id = pos 1; email = codes "ann@example.org"; is_admin = false; is_blocked = false }
      ∷ [];
  profiles =
      record {
        member_id = pos 1;
        location = none;
        pronouns = none;
        preferred_name = none;
        photo_url = none;
        timezone = none;
        bio = none;
      }
      ∷ [];
  threads = [];
  posts = [];
  board = some board;
  next_member = 2;
  next_thread = 1;
  next_post = 1;
  last_thread = none;
  now = 1000;
  faults = [];
}

abbrev pub posted : Request
posted = record {
  method = Method.post;
  path = codes "/thread/new";
  form_ok = true;
  form = ("subject", codes "Hello") ∷ ("thread_body", codes "First post") ∷ [];
  path_values = [];
  remote_addr = codes "100.64.0.1:80";
  headers = [];
  content_length = pos 40;
  user = some ann;
  board = some board;
}

handle-Allowed_example :
    Allowed (some ann) db (serve (handle service Endpoint.create_thread posted) db).1
handle-Allowed_example = handle-Allowed service Endpoint.create_thread posted db

create_thread_handler-atomic_example :
    Unchanged db (serve (create_thread_handler service posted) db).1
    ⊎ (status (serve (create_thread_handler service posted) db).0 ≡ 303)
create_thread_handler-atomic_example = create_thread_handler-atomic service posted db

abbrev pub fetched : Request
fetched = record posted { method = Method.get; path = codes "/member/edit" }

is_fetched : fetched.method ≢ Method.post
is_fetched e = cc

handle-Unchanged_example : Unchanged db (serve (handle service Endpoint.edit_profile fetched) db).1
handle-Unchanged_example = handle-Unchanged service Endpoint.edit_profile fetched db is_fetched

thread_form_iff_example :
    (validate_thread_form (codes "Hello") (codes "text") ≡ [])
    ↔ (IsFilled (codes "Hello") 3 255 × IsFilled (codes "text") 1 10000)
thread_form_iff_example = thread_form_iff (codes "Hello") (codes "text")

profile_form_iff_example :
    (validate_profile_form some_url (codes "a.org") [] (codes "Ann") [] [] ≡ [])
    ↔ (IsPhoto some_url (codes "a.org") × (0 ≤ 100) × (3 ≤ 100) × (0 ≤ 1000) × (0 ≤ 50))
profile_form_iff_example = profile_form_iff some_url (codes "a.org") [] (codes "Ann") [] []

sanitize_input-clean_example :
    All (λ c. c ≢ 0) (sanitize_input (codes "a\r\nb"))
    × All (λ c. c ≢ 13) (sanitize_input (codes "a\r\nb"))
sanitize_input-clean_example = sanitize_input-clean (codes "a\r\nb")

no_nulls : All (λ (c : ℕ). c ≢ 0) (97 ∷ 32 ∷ 9 ∷ 98 ∷ [])
no_nulls = (omega arith, (omega arith, (omega arith, (omega arith, tt))))

sanitize_input-again_example :
    sanitize_input (sanitize_input (97 ∷ 32 ∷ 9 ∷ 98 ∷ [])) ≡ sanitize_input (97 ∷ 32 ∷ 9 ∷ 98 ∷ [])
sanitize_input-again_example = sanitize_input-again (97 ∷ 32 ∷ 9 ∷ 98 ∷ []) no_nulls

sanitize_input-runs_example :
    let input : Text = 97 ∷ 32 ∷ 9 ∷ 98 ∷ [] in
    let lines : Text = replace_rune 13 (10 ∷ []) (replace_pair 13 10 (10 ∷ []) input) in
    ((middle : Text) × Spaces (trim_space lines) middle × Paragraphs middle (sanitize_input input))
    × IsSpaced false (sanitize_input input)
    × IsParagraphed 0 (sanitize_input input)
sanitize_input-runs_example = sanitize_input-runs (97 ∷ 32 ∷ 9 ∷ 98 ∷ []) no_nulls

admin_form_iff_example : ((validate_admin_form (codes "Board") (codes "900")).2 ≡ []) ↔ (
    IsFilled (codes "Board") 1 200
    × (trim_space (codes "900") ≢ [])
    × IsWindow (scan (codes "900")) (validate_admin_form (codes "Board") (codes "900")).1)
admin_form_iff_example = admin_form_iff (codes "Board") (codes "900")

letter_a : is_space 97 ≡ false
unfolding is_space
letter_a = refl

letter_b : is_space 98 ≡ false
unfolding is_space
letter_b = refl

sanitize_input-null_example :
    sanitize_input (97 ∷ 10 ∷ 10 ∷ 0 ∷ 10 ∷ 98 ∷ []) ≡ 97 ∷ 10 ∷ 10 ∷ 10 ∷ 98 ∷ []
sanitize_input-null_example =
    sanitize_input-null 97 98 letter_a letter_b (omega arith) (omega arith)

-- Forty minutes later, with a thread and its post.
abbrev pub later_db : Db
later_db = record db {
  threads =
      record {
        id = pos 1;
        member_id = pos 1;
        subject = codes "Hello";
        date_posted = 1000;
        first_post_id = some (pos 1);
        posts = 1;
        views = 0;
        sticky = false;
        locked = false;
        last_member_id = pos 1;
        date_last_posted = 1000;
      }
      ∷ [];
  posts =
      record {
        id = pos 1;
        thread_id = pos 1;
        date_posted = 1000;
        member_id = pos 1;
        body = some (codes "First post");
      }
      ∷ [];
  now = 2400001000;
}
