-- ===== src/Api/Jobs.antt =====
-- apps/cronpilot-frontend/src/api/jobs.js.
use irwandhi_gitops_lab.Base.{◌++◌}
use irwandhi_gitops_lab.Text.{Text, lit}
use irwandhi_gitops_lab.Json.{Json}
use irwandhi_gitops_lab.Api.{Method, Request, request, send}

unfoldable pub get_jobs : Request
get_jobs = request Method.get (lit "/jobs")

unfoldable pub get_job : Text → Request
get_job id = request Method.get (lit "/jobs/" ++ id)

unfoldable pub create_job : Json → Request
create_job body = send Method.post (lit "/jobs") body

unfoldable pub update_job : Text → Json → Request
update_job id body = send Method.put (lit "/jobs/" ++ id) body

unfoldable pub delete_job : Text → Request
delete_job id = request Method.delete (lit "/jobs/" ++ id)

unfoldable pub pause_job : Text → Request
pause_job id = request Method.post (lit "/jobs/" ++ (id ++ lit "/pause"))

unfoldable pub resume_job : Text → Request
resume_job id = request Method.post (lit "/jobs/" ++ (id ++ lit "/resume"))

unfoldable pub trigger_job : Text → Request
trigger_job id = request Method.post (lit "/jobs/" ++ (id ++ lit "/trigger"))
