-- ===== src/Tests/Models.antt =====
-- Concrete versions of what the client does not implement: the JSON codec of users, the router and
-- the printing of dates.
use irwandhi_gitops_lab.Base.{
  zero, suc, ◌&&◌, Option, none, some, List, [], ◌∷◌, ◌++◌, ◌≡◌, refl, ap, length, take, drop, leb,
  if◌then◌else◌,
}
use irwandhi_gitops_lab.Text.{Text, lit, eq_text}
use irwandhi_gitops_lab.Session.{User, UserCodec}
use irwandhi_gitops_lab.App.{Page, Router, path_of}
use irwandhi_gitops_lab.Records.{Dates}

-- A field behind its length, or a zero for none.
abbrev write : Option Text → Text → Text
write none rest = 0 ∷ rest
write (some s) rest = suc (length s) ∷ (s ++ rest)

abbrev read : Text → Option Text × Text
read [] = (none, [])
read (zero ∷ s) = (none, s)
read (suc n ∷ s) = (some (take n s), drop n s)

take-length : (s rest : Text) → take (length s) (s ++ rest) ≡ s
take-length [] rest = refl
take-length (c ∷ s) rest = ap (λ t. c ∷ t) (take-length s rest)

drop-length : (s rest : Text) → drop (length s) (s ++ rest) ≡ rest
drop-length [] rest = refl
drop-length (c ∷ s) rest = drop-length s rest

read-write : (o : Option Text) (rest : Text) → read (write o rest) ≡ (o, rest)
read-write none rest = refl
read-write (some s) rest = λ i. (some (take-length s rest i), drop-length s rest i)

abbrev write_user : User → Text
write_user u = b'{' ∷ write u.id (write u.email (write u.role []))

abbrev read_fields : Text → User
read_fields s =
    let (id, t) = read s in
    let (email, r) = read t in record { id = id; email = email; role = (read r).0 }

abbrev read_user : Text → Option User
read_user [] = none
read_user (c ∷ s) = if leb 123 c && leb c 123 then some (read_fields s) else none

pub read_user-write_user : (u : User) → read_user (write_user u) ≡ some u
read_user-write_user u = rw (
  read-write u.id (write u.email (write u.role [])),
  read-write u.email (write u.role []),
  read-write u.role [],
)

pub read_user-undefined : read_user (lit "undefined") ≡ none
unfolding lit
read_user-undefined = refl

abbrev pub codec : UserCodec
codec = record {
  stringify = write_user;
  parse = read_user;
  parse-stringify = read_user-write_user;
  parse-undefined = read_user-undefined;
}

abbrev find_page : List Page → Text → Option Page
find_page [] path = none
find_page (p ∷ ps) path = if eq_text (path_of p) path then some p else find_page ps path

abbrev resolve_path : Text → Option Page
resolve_path = find_page (
    Page.login ∷ Page.register ∷ Page.index ∷ Page.dashboard ∷ Page.jobs ∷ Page.new_job
    ∷ Page.profile ∷ Page.report ∷ Page.admin_jobs ∷ Page.admin_users ∷ [])

pub resolve_path-login : resolve_path (lit "/login") ≡ some Page.login
unfolding path_of lit eq_text
resolve_path-login = refl

pub resolve_path-dashboard : resolve_path (lit "/dashboard") ≡ some Page.dashboard
unfolding path_of lit eq_text
resolve_path-dashboard = refl

abbrev pub router : Router
router = record {
  resolve = resolve_path;
  resolve-login = resolve_path-login;
  resolve-dashboard = resolve_path-dashboard;
}

abbrev pub dates : Dates
dates = record { distance_to_now = λ s. s; format_long = λ s. s }
