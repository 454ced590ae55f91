-- ===== src/Handlers/Routes.antt =====
-- routes.go: the handlers that the routes lead to.
use tdiscuss.Web.{Request, Response, Service}
use tdiscuss.Web.Action.{Action}
use tdiscuss.Handlers.Admin.{admin_handler}
use tdiscuss.Handlers.Create.{create_thread_handler, create_thread_post_handler}
use tdiscuss.Handlers.Edit.{edit_thread_handler, edit_thread_post_handler}
use tdiscuss.Handlers.Profile.{edit_member_profile}
use tdiscuss.Handlers.Show.{
  list_threads_handler, list_thread_posts_handler, list_member, new_thread_handler,
  formatting_guide,
}

pub data Endpoint : Type 0 where
  list_threads list_thread_posts list_member_page new_thread create_thread edit_thread : Endpoint
  edit_thread_post create_thread_post edit_profile formatting admin : Endpoint

unfoldable pub handle : Service → Endpoint → Request → Action Response
handle svc list_threads r = list_threads_handler svc r
handle svc list_thread_posts r = list_thread_posts_handler svc r
handle svc list_member_page r = list_member svc r
handle svc new_thread r = new_thread_handler svc r
handle svc create_thread r = create_thread_handler svc r
handle svc edit_thread r = edit_thread_handler svc r
handle svc edit_thread_post r = edit_thread_post_handler svc r
handle svc create_thread_post r = create_thread_post_handler svc r
handle svc edit_profile r = edit_member_profile svc r
handle svc formatting r = formatting_guide svc r
handle svc admin r = admin_handler svc r
