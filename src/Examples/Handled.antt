-- ===== src/Examples/Handled.antt =====
-- The theorems about what handlers, limiters and the chain of the API do, at the small board.
use tdiscuss.Base.{
  ◌≡◌, ◌≢◌, refl, true, false, List, [], ◌∷◌, ◌++◌, if◌then◌else◌, none, some, pos, take, map, ℤ,
}
use tdiscuss.Text.{codes, text_eq, is_empty}
use tdiscuss.Validation.{validate_thread_form, validate_thread_post_form}
use tdiscuss.Store.Tables.{Db, Post, has_member, spent, find, member_by_id, thread_by_id}
use tdiscuss.Store.Threads.{in_window, set_body}
use tdiscuss.Store.Reads.{ThreadsRow, ThreadPostsRow, newer, older, subject_in}
use tdiscuss.Web.{Method, Request, Response, message, redirect, page, index, thread}
use tdiscuss.Web.Action.{serve}
use tdiscuss.Handlers.{input, path_id, body_html, string_of, frame, thread_path, parse_html_strict}
use tdiscuss.Handlers.Create.{create_thread_handler}
use tdiscuss.Handlers.Created.{thread_of, post_of, create_thread_handler-creates}
use tdiscuss.Handlers.Edit.{edit_thread_post_handler, back_to_thread}
use tdiscuss.Handlers.Edited.{post_by_id, edit_thread_post_handler-edits}
use tdiscuss.Handlers.Routes.{Endpoint}
use tdiscuss.Handlers.Show.{thread_item, post_item, list_threads_handler, list_thread_posts_handler}
use tdiscuss.Handlers.Listed.{
  Ordering, listed_rows, thread_rows, list_threads_handler-shows, list_thread_posts_handler-shows,
}
use tdiscuss.Middleware.{chain_then}
use tdiscuss.Middleware.Api.{create_api_chain}
use tdiscuss.Middleware.Setup.{new_middleware_setup, main_slot}
use tdiscuss.RateLimiter.{new_rate_limiter}
use tdiscuss.RateLimiter.Alone.{
  Happening, request, sweep, only, answers, answers_to, rate_limit_middleware-alone,
}
use tdiscuss.Routes.{endpoint_handler}
use tdiscuss.Routes.Guard.{May, endpoint-Holds}
use tdiscuss.Routes.Setups.{Admitted, create_api_chain-Admitted}
use tdiscuss.Examples.{ann, service, db, posted, later_db}
use tdiscuss.Examples.Chains.{rate, outside, arrived, world, db-Consistent}

posted-valid : validate_thread_form (input posted "subject") (input posted "thread_body") ≡ []
unfolding validate_thread_form input
posted-valid = refl

posted-filled : is_empty (parse_html_strict service (input posted "subject")) ≡ false
unfolding parse_html_strict input
posted-filled = refl

ann-there : has_member ann.id db ≡ true
unfolding has_member member_by_id
ann-there = refl

create_thread_handler-creates_example :
    let subject = parse_html_strict service (input posted "subject") in
    let body = body_html service (input posted "thread_body") in
    let after = serve (create_thread_handler service posted) db in
    (after.0 ≡ redirect (thread_path (pos db.next_thread)))
    × (after.1.threads ≡ db.threads ++ thread_of ann subject db ∷ [])
    × (after.1.posts ≡ db.posts ++ post_of ann body db ∷ [])
    × (after.1.members ≡ db.members)
    × (after.1.profiles ≡ db.profiles)
create_thread_handler-creates_example =
    create_thread_handler-creates service posted ann db db-Consistent tt refl refl refl refl
      posted-valid posted-filled ann-there

-- Ten minutes after the post.
abbrev pub soon_db : Db
soon_db = record later_db { now = 600001000 }

abbrev first_post : Post
first_post = record {
  id = pos 1;
  thread_id = pos 1;
  date_posted = 1000;
  member_id = pos 1;
  body = some (codes "First post");
}

abbrev reworded : Request
reworded = record posted {
  path = codes "/thread/1/1/edit";
  form = ("thread_post_body", codes "Better words") ∷ [];
  path_values = ("tid", codes "1") ∷ ("pid", codes "1") ∷ [];
}

reworded-valid : validate_thread_post_form (input reworded "thread_post_body") ≡ []
unfolding validate_thread_post_form input
reworded-valid = refl

reworded-path : path_id reworded "pid" ≡ some (pos 1)
unfolding path_id
reworded-path = refl

first_post-found : post_by_id (pos 1) soon_db.posts ≡ some first_post
unfolding find
first_post-found = refl

ann-stays : has_member first_post.member_id soon_db ≡ true
unfolding has_member member_by_id
ann-stays = refl

reworded-changed :
    text_eq (string_of first_post.body) (body_html service (input reworded "thread_post_body"))
    ≡ false
unfolding body_html input text_eq
reworded-changed = refl

edit_thread_post_handler-edits_example :
    let body = body_html service (input reworded "thread_post_body") in
    let after = serve (edit_thread_post_handler service reworded) soon_db in
    (after.0 ≡ redirect (back_to_thread reworded))
    × (post_by_id (pos 1) after.1.posts
        ≡ some (if in_window 600001000 1000 then set_body (some body) first_post else first_post))
    × ((j : ℤ) → j ≢ pos 1 → post_by_id j after.1.posts ≡ post_by_id j soon_db.posts)
edit_thread_post_handler-edits_example =
    edit_thread_post_handler-edits service reworded ann (pos 1) first_post soon_db tt refl refl refl
      reworded-valid reworded-path first_post-found refl ann-stays reworded-changed

abbrev front : Request
front = record posted { method = Method.get; path = codes "/"; form = [] }

front-root : text_eq front.path (codes "/") ≡ true
unfolding text_eq
front-root = refl

list_threads_handler-shows_example :
    (sorted : List ThreadsRow) × Ordering newer (listed_rows ann later_db) sorted
    × (serve (list_threads_handler service front) later_db ≡ (
      page (index (frame service front ann) (map thread_item (take 100 sorted))),
      spent later_db,
    ))
list_threads_handler-shows_example =
    list_threads_handler-shows service front ann later_db tt refl front-root refl (λ p. refl)

abbrev opened : Request
opened = record front { path = codes "/thread/1"; path_values = ("tid", codes "1") ∷ [] }

opened-path : path_id opened "tid" ≡ some (pos 1)
unfolding path_id
opened-path = refl

hello : subject_in (pos 1) later_db ≡ some (codes "Hello")
unfolding thread_by_id
hello = refl

list_thread_posts_handler-shows_example :
    (sorted : List ThreadPostsRow) × Ordering older (thread_rows ann (pos 1) later_db) sorted
    × (serve (list_thread_posts_handler service opened) later_db ≡ (
      page (thread (frame service opened ann) (map post_item sorted) (codes "Hello") (pos 1)),
      spent (spent later_db),
    ))
list_thread_posts_handler-shows_example =
    list_thread_posts_handler-shows service opened ann later_db (pos 1) (codes "Hello") tt refl
      opened-path refl hello (λ p. refl)

-- Ann asks twice, and in between somebody who is not signed in.
abbrev visits : List Happening
visits =
    request 1000 posted
    ∷ request 1001 (record posted { user = none })
    ∷ sweep 2000
    ∷ request 3000 posted
    ∷ []

abbrev reply : Request → Response
reply r = message 200 r.path

rate_limit_middleware-alone_example :
    answers_to (codes "user:1") (answers rate reply visits (new_rate_limiter 1000 1))
    ≡ answers rate reply (only (codes "user:1") visits) (new_rate_limiter 1000 1)
rate_limit_middleware-alone_example =
    rate_limit_middleware-alone rate reply (codes "user:1") 1000 1 visits

create_api_chain-Admitted_example :
    let run =
      chain_then
        (create_api_chain outside new_middleware_setup main_slot)
        (endpoint_handler service Endpoint.create_thread)
        (arrived posted)
        world in
    Admitted outside (May outside) posted none db run.0 run.1.db
create_api_chain-Admitted_example =
    create_api_chain-Admitted outside (May outside)
      (endpoint_handler service Endpoint.create_thread)
      (endpoint-Holds outside service Endpoint.create_thread) new_middleware_setup main_slot
      (λ vs w. refl) refl (arrived posted) world
