-- ===== src/Tests/Servers.antt =====
-- A wire format and a connection in memory.
use diff_mem.Prelude.{◌≡◌, refl, ap, Bool, true, false, none, some, Option, List, [], ◌∷◌, ◌++◌}
use diff_mem.Text.{Text, lit}
use diff_mem.Dict.{Dict, lookup}
use diff_mem.Model.{ToolResponse}
use diff_mem.Params.{Json, null, Params, members, members_of}
use diff_mem.Mcp.Schema.{object, members_from}
use diff_mem.Engine.{Engine}
use diff_mem.Store.Memory.{MemoryStore}
use diff_mem.Store.Memory.Laws.{memory}
use diff_mem.Api.{Decoded, decoded, malformed, Wire, serve}
use diff_mem.Agent.{Response, Agent, Client}
use diff_mem.Agent.Session.{arrived, Connection}
use diff_mem.Tests.Sample.{sample, alpha, beta}

-- A body is what was encoded.
pub data Body : Type 0 where
  request : Params → Body
  batch : List Params → Body
  reply : ToolResponse → Body
  state : Dict Text → Body

abbrev pub request_in : Body → Decoded Params
request_in (request params) = decoded params
request_in _ = malformed (lit "no map")

abbrev pub batch_in : Body → Decoded (List Params)
batch_in (batch ops) = decoded ops
batch_in _ = malformed (lit "no operations")

abbrev pub success_in : Body → Bool
success_in (reply r) = r.success
success_in _ = false

abbrev pub response_in : Body → Option Response
response_in (reply r) = some (record { success = r.success; result = null; error = none })
response_in _ = none

abbrev pub wire : Wire
wire = record {
  Body = Body;
  decode_params = request_in;
  decode_operations = batch_in;
  encode = reply;
  encode_status = state;
  success = success_in;
}

abbrev pub agent : Agent
agent = record { base_url = []; session_path = alpha; profile_path = beta }

abbrev pub client : Client (Engine MemoryStore)
client = record {
  Body = Body;
  marshal = λ v. some (request (members_of (some v)));
  is_url = λ url. true;
  post = λ url body e.
      arrived memory sample wire (λ b. b) (serve wire memory sample (lit "POST " ++ url) body e);
  body_text = λ b. [];
  as_response = response_in;
  as_entries = λ b. none;
  as_object = λ b. none;
  as_show = λ b. none;
  as_header = λ b. none;
  as_deep_load = λ b. none;
  as_events = λ b. none;
  rfc3339 = λ t. [];
}

members-members_from : (ps : List (Text × Json)) → members (members_from ps) ≡ ps
unfolding members members_from
members-members_from [] = refl
members-members_from ((k, v) ∷ ps) = ap (λ (m : Params). (k, v) ∷ m) (members-members_from ps)

pub connection : Connection memory sample wire agent client
unfolding lit object
connection = record {
  to_server = λ b. b;
  to_client = λ b. b;
  encode = λ ps. request (members (members_from ps));
  encodes = λ ps. refl;
  is_url = λ name routed. refl;
  posts = λ name body e routed. refl;
  decodes = λ ps distinct.
      (members (members_from ps), refl, λ k. ap (lookup k) (members-members_from ps));
  reads = λ r. (record { success = r.success; result = null; error = none }, refl, refl);
}
