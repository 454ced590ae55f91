-- ===== src/Web.antt =====
-- What a handler is given and gives back: requests, users, responses (server.go, handlers.go), and
-- the services that the repository only calls.
pub mod Action
pub mod Keeps
pub mod Reads
pub mod Runs
use tdiscuss.Base.{ℕ, String, Bool, List, [], ◌∷◌, if◌then◌else◌, Option, none, some, ℤ}
use tdiscuss.Text.{Text, codes}
use tdiscuss.Validation.{Url}
use tdiscuss.Store.Tables.{Board, Post}
use tdiscuss.Store.Members.{MemberRow}
use tdiscuss.Store.Reads.{ThreadsRow, ThreadForEditRow, ThreadPostForEditRow}
use text.Mathlib.Text.{◌==◌ as str_eq}

pub record User : Type 0 where
  pub id : ℤ
  pub email : Text
  pub is_admin : Bool
  pub is_blocked : Bool

pub data Method : Type 0 where
  get post put patch delete other : Method

-- `user` and `board` are what the middleware put into the context. `form_ok` is whether
-- `ParseForm` succeeds; `form` and `path_values` are read by `Get` and `PathValue`.
pub record Request : Type 0 where
  pub method : Method
  pub path : Text
  pub form_ok : Bool
  pub form : List (String × Text)
  pub path_values : List (String × Text)
  pub remote_addr : Text
  pub headers : List (String × Text)
  pub content_length : ℤ
  pub user : Option User
  pub board : Option Board

-- The first value of a key, or the empty text.
unfoldable pub value_of : String → List (String × Text) → Text
value_of key [] = []
value_of key ((k, v) ∷ pairs) = if str_eq k key then v else value_of key pairs

-- The data that every page shows.
pub record Frame : Type 0 where
  pub title : Text
  pub user : User
  pub version : Text
  pub git_sha : Text

pub record ThreadTemplateData : Type 0 where
  pub thread_id : ℤ
  pub subject : Text
  pub email : Option Text
  pub last_id : Option ℤ
  pub last_name : Option Text
  pub posts : ℕ
  pub views : ℕ
  pub date_last_posted : ℕ
  pub can_edit : Bool
  pub sticky : Bool
  pub locked : Bool

pub record ThreadPostTemplateData : Type 0 where
  pub id : ℤ
  pub body : Text
  pub thread_id : Option ℤ
  pub member_id : Option ℤ
  pub email : Option Text
  pub date_posted : ℕ
  pub can_edit : Bool

pub record MemberThreadPostTemplateData : Type 0 where
  pub member_id : ℤ
  pub member_email : Text
  pub post_count : ℕ

-- A template with its data.
pub data Page : Type 0 where
  admin : Frame → Board → List MemberThreadPostTemplateData → Page
  edit_profile : Frame → MemberRow → Page
  edit_thread : Frame → ThreadForEditRow → Page
  edit_thread_post : Frame → ThreadPostForEditRow → ℤ → Page
  index : Frame → List ThreadTemplateData → Page
  thread : Frame → List ThreadPostTemplateData → Text → ℤ → Page
  member : Frame → MemberRow → List ThreadsRow → Bool → ℕ → Page
  new_thread : Frame → Page
  formatting : Frame → Text → Text → Text → Text → Page

-- `error` is an error page of the status's own text, `message` one of another text, `redirect` is
-- a 303.
pub data Response : Type 0 where
  error : ℕ → Response
  message : ℕ → Text → Response
  redirect : Text → Response
  page : Page → Response
  plain : Text → Response

unfoldable pub status : Response → ℕ
status (error code) = code
status (message code text) = code
status (redirect to) = 303
status (page p) = 200
status (plain text) = 200

-- The queries that the service is given: those of queries.sql.go, as in the tests, or their
-- `TracedQueriesWrapper`, as in main.go.
pub data Queries : Type 0 where
  plain_queries traced_queries : Queries

-- Code that is not in the repository, and the choice of the queries. `markdown` is goldmark's `Convert` (`none` is an error),
-- `strict` and `body_policy` are bluemonday's `Sanitize` under the two policies, `unescape` is
-- `html.UnescapeString`, `parse_url` is `url.Parse`; `renders` says whether a template executes,
-- before its first byte; `row_order` is the order in which the server returns rows that a
-- statement does not order.
pub record Service : Type 0 where
  pub markdown : Text → Option Text
  pub strict : Text → Text
  pub body_policy : Text → Text
  pub unescape : Text → Text
  pub parse_url : Text → Option Url
  pub renders : Page → Bool
  pub row_order : List Post → List Post
  pub queries : Queries
  pub version : Text
  pub git_sha : Text
