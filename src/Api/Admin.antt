-- ===== src/Api/Admin.antt =====
-- apps/cronpilot-frontend/src/api/admin.js.
use irwandhi_gitops_lab.Base.{◌++◌}
use irwandhi_gitops_lab.Text.{Text, lit}
use irwandhi_gitops_lab.Json.{Json}
use irwandhi_gitops_lab.Api.{Method, Request, request, send}

unfoldable pub get_users : Request
get_users = request Method.get (lit "/admin/users")

unfoldable pub create_user : Json → Request
create_user body = send Method.post (lit "/admin/users") body

unfoldable pub update_user : Text → Json → Request
update_user id body = send Method.patch (lit "/admin/users/" ++ id) body

unfoldable pub delete_user : Text → Request
delete_user id = request Method.delete (lit "/admin/users/" ++ id)

unfoldable pub get_all_jobs : Request
get_all_jobs = request Method.get (lit "/admin/jobs")

unfoldable pub create_job : Json → Request
create_job body = send Method.post (lit "/admin/jobs") body

unfoldable pub update_job : Text → Json → Request
update_job id body = send Method.put (lit "/admin/jobs/" ++ id) body

unfoldable pub delete_job : Text → Request
delete_job id = request Method.delete (lit "/admin/jobs/" ++ id)

unfoldable pub pause_job : Text → Request
pause_job id = request Method.post (lit "/admin/jobs/" ++ (id ++ lit "/pause"))

unfoldable pub resume_job : Text → Request
resume_job id = request Method.post (lit "/admin/jobs/" ++ (id ++ lit "/resume"))

unfoldable pub trigger_job : Text → Request
trigger_job id = request Method.post (lit "/admin/jobs/" ++ (id ++ lit "/trigger"))
