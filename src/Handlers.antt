-- ===== src/Handlers.antt =====
-- handlers.go: what the handlers share. Each handler is an action that ends with a response.
pub mod Admin
pub mod Create
pub mod Edit
pub mod Profile
pub mod Show
pub mod Routes
pub mod Missing
pub mod Otel
pub mod Created
pub mod Edited
pub mod Listed
pub mod Saved
pub mod Retitled
use tdiscuss.Base.{String, Bool, false, Option, none, some, ℤ, ◌++◌, if◌then◌else◌}
use tdiscuss.Text.{Text, codes, is_empty, text_eq}
use tdiscuss.Text.Decimal.{format_int, parse_int}
use tdiscuss.Sanitize.{sanitize_input}
use tdiscuss.Web.{Request, User, Frame, Service, value_of}
use tdiscuss.Store.Tables.{Board}

abbrev title_of : Option Board → Text
title_of none = codes "tdiscuss"
title_of (some b) = b.title

-- `GetBoardTitle`
unfoldable pub get_board_title : Request → Text
get_board_title r = title_of r.board

unfoldable pub frame : Service → Request → User → Frame
unfolding get_board_title
frame svc r user = record {
  title = get_board_title r;
  user = user;
  version = svc.version;
  git_sha = svc.git_sha;
}

-- `SanitizeInput(r.Form.Get(key))`
unfoldable pub input : Request → String → Text
unfolding sanitize_input value_of
input r key = sanitize_input (value_of key r.form)

-- `strconv.ParseInt(r.PathValue(key), 10, 64)`
unfoldable pub path_id : Request → String → Option ℤ
unfolding parse_int value_of
path_id r key = parse_int 64 (value_of key r.path_values)

-- `fmt.Sprintf("/thread/%d", id)`
unfoldable pub thread_path : ℤ → Text
unfolding format_int
thread_path id = codes "/thread/" ++ format_int id

unfoldable pub member_path : ℤ → Text
unfolding format_int
member_path id = codes "/member/" ++ format_int id

-- parser.go: `parseMarkdownToHTML`
abbrev or_original : Text → Option Text → Text
or_original text none = text
or_original text (some html) = html

unfoldable pub parse_markdown_to_html : Service → Text → Text
parse_markdown_to_html svc text = or_original text (svc.markdown text)

-- parser.go: `parseHTMLStrict`
unfoldable pub parse_html_strict : Service → Text → Text
parse_html_strict svc text = svc.unescape (svc.strict text)

-- parser.go: `parseHTMLLessStrict`
unfoldable pub parse_html_less_strict : Service → Text → Text
parse_html_less_strict svc text = svc.body_policy text

-- The body that is stored for an input.
unfoldable pub body_html : Service → Text → Text
unfolding parse_html_less_strict parse_markdown_to_html
body_html svc text = parse_html_less_strict svc (parse_markdown_to_html svc text)

-- `.String` of a nullable text.
abbrev pub string_of : Option Text → Text
string_of none = codes ""
string_of (some s) = s
