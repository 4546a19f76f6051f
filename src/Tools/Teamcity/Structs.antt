-- ===== src/Tools/Teamcity/Structs.antt =====
-- The projected results of internal/tools/teamcity.go and how encoding/json fills them.
use butterstack_connector.Prelude.{
  Bool, true, false, ◌||◌, List, [], ◌∷◌, Bytes, codes, if◌then◌else◌,
}
use butterstack_connector.Prelude.Int.{ℤ, pos}
use butterstack_connector.Json.{Json, Items, is_field}
use butterstack_connector.Protocol.{Store, store_members, put_string, put_int}

pub record ServerInfo : Type 0 where
  pub version : Bytes
  pub version_major : ℤ
  pub version_minor : ℤ
  pub build_number : Bytes
  pub web_url : Bytes

pub record Revision : Type 0 where
  pub version : Bytes
  pub vcs_branch_name : Bytes

-- `revisions` is the member of that name of the struct `Revisions`.
pub record Build : Type 0 where
  pub id : ℤ
  pub build_type_id : Bytes
  pub number : Bytes
  pub status : Bytes
  pub state : Bytes
  pub status_text : Bytes
  pub branch_name : Bytes
  pub web_url : Bytes
  pub queued_date : Bytes
  pub start_date : Bytes
  pub finish_date : Bytes
  pub revisions : List Revision

abbrev pub zero_server_info : ServerInfo
zero_server_info = record {
  version = [];
  version_major = pos 0;
  version_minor = pos 0;
  build_number = [];
  web_url = [];
}

unfoldable pub store_server_info : Store ServerInfo
store_server_info k v s =
    if is_field k (codes "version")
    then put_string v s.version (λ x. record s { version = x }) s
    else if is_field k (codes "versionmajor")
    then put_int v s.version_major (λ x. record s { version_major = x }) s
    else if is_field k (codes "versionminor")
    then put_int v s.version_minor (λ x. record s { version_minor = x }) s
    else if is_field k (codes "buildnumber")
    then put_string v s.build_number (λ x. record s { build_number = x }) s
    else if is_field k (codes "weburl")
    then put_string v s.web_url (λ x. record s { web_url = x }) s
    else (s, false)

abbrev zero_revision : Revision
zero_revision = record { version = []; vcs_branch_name = [] }

unfoldable store_revision : Store Revision
store_revision k v r =
    if is_field k (codes "version")
    then put_string v r.version (λ x. record r { version = x }) r
    else if is_field k (codes "vcsbranchname")
    then put_string v r.vcs_branch_name (λ x. record r { vcs_branch_name = x }) r
    else (r, false)

-- One element of the array: an element that is no object has the wrong type.
abbrev read_revision : Json → Revision × Bool
read_revision (Json.obj fs) = store_members store_revision fs zero_revision
read_revision Json.null = (zero_revision, false)
read_revision (Json.bool b) = (zero_revision, true)
read_revision (Json.num n) = (zero_revision, true)
read_revision (Json.str s) = (zero_revision, true)
read_revision (Json.arr xs) = (zero_revision, true)

unfoldable read_revisions : Items → List Revision × Bool
unfolding store_revision store_members
read_revisions Items.nil = ([], false)
read_revisions (Items.cons j xs) =
    let (r, bad) = read_revision j in let (rs, worse) = read_revisions xs in (r ∷ rs, bad || worse)

-- The member `revision`. A second one replaces the first.
abbrev put_revisions : Json → List Revision → List Revision × Bool
put_revisions (Json.arr xs) old = read_revisions xs
put_revisions Json.null old = ([], false)
put_revisions (Json.bool b) old = (old, true)
put_revisions (Json.num n) old = (old, true)
put_revisions (Json.str s) old = (old, true)
put_revisions (Json.obj fs) old = (old, true)

unfoldable store_revisions : Store (List Revision)
unfolding read_revisions
store_revisions k v rs = if is_field k (codes "revision") then put_revisions v rs else (rs, false)

-- The member `revisions`.
abbrev put_member : Json → List Revision → List Revision × Bool
put_member (Json.obj fs) old = store_members store_revisions fs old
put_member Json.null old = (old, false)
put_member (Json.bool b) old = (old, true)
put_member (Json.num n) old = (old, true)
put_member (Json.str s) old = (old, true)
put_member (Json.arr xs) old = (old, true)

abbrev with_revisions : Build → List Revision × Bool → Build × Bool
with_revisions b (rs, bad) = (record b { revisions = rs }, bad)

abbrev pub zero_build : Build
zero_build = record {
  id = pos 0;
  build_type_id = [];
  number = [];
  status = [];
  state = [];
  status_text = [];
  branch_name = [];
  web_url = [];
  queued_date = [];
  start_date = [];
  finish_date = [];
  revisions = [];
}

unfoldable pub store_build : Store Build
unfolding store_revisions store_members
store_build k v b =
    if is_field k (codes "id")
    then put_int v b.id (λ x. record b { id = x }) b
    else if is_field k (codes "buildtypeid")
    then put_string v b.build_type_id (λ x. record b { build_type_id = x }) b
    else if is_field k (codes "number")
    then put_string v b.number (λ x. record b { number = x }) b
    else if is_field k (codes "status")
    then put_string v b.status (λ x. record b { status = x }) b
    else if is_field k (codes "state")
    then put_string v b.state (λ x. record b { state = x }) b
    else if is_field k (codes "statustext")
    then put_string v b.status_text (λ x. record b { status_text = x }) b
    else if is_field k (codes "branchname")
    then put_string v b.branch_name (λ x. record b { branch_name = x }) b
    else if is_field k (codes "weburl")
    then put_string v b.web_url (λ x. record b { web_url = x }) b
    else if is_field k (codes "queueddate")
    then put_string v b.queued_date (λ x. record b { queued_date = x }) b
    else if is_field k (codes "startdate")
    then put_string v b.start_date (λ x. record b { start_date = x }) b
    else if is_field k (codes "finishdate")
    then put_string v b.finish_date (λ x. record b { finish_date = x }) b
    else if is_field k (codes "revisions")
    then with_revisions b (put_member v b.revisions)
    else (b, false)
