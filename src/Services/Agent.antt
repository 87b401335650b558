-- ===== src/Services/Agent.antt =====
-- src/agent_dispatch_client.cpp: `AgentDispatchClient`.
use livekit_server_cpp.Common.{true, Option, none, some, List, [], ◌∷◌, Bytes, codes}
use livekit_server_cpp.Context.Call.{Codec}
use livekit_server_cpp.Context.{RequestGrant}
use livekit_server_cpp.Http.{Action, ◌>>=◌, done}
use livekit_server_cpp.Services.{Client, perform, video_only}
use livekit_server_cpp.Token.{no_video_grant}

pub data AgentMethod : Type 0 where
  create_dispatch delete_dispatch list_dispatch : AgentMethod

unfoldable pub agent_method_name : AgentMethod → Bytes
agent_method_name AgentMethod.create_dispatch = codes "CreateDispatch"
agent_method_name AgentMethod.delete_dispatch = codes "DeleteDispatch"
agent_method_name AgentMethod.list_dispatch = codes "ListDispatch"

-- The grant of the helper `Call`.
unfoldable pub agent_grant : Bytes → RequestGrant
agent_grant room = video_only (record no_video_grant { room_admin = true; room = room })

unfoldable pub agent_call :
    Client
    → {Request Response : Type 0} → Codec Request Response
    → AgentMethod
    → (Request → Bytes)
    → Request
    → Action Response
agent_call client codec method room request =
    perform client codec (codes "AgentDispatchService") (agent_method_name method) request
      (agent_grant (room request))

-- `livekit.ListAgentDispatchRequest`, with the two fields that `GetDispatch` sets.
pub record ListRequest : Type 0 where
  pub dispatch_id : Bytes
  pub room : Bytes

-- `GetDispatch`: the first dispatch of the response, if any.
unfoldable pub get_dispatch :
    Client
    → {Dispatch : Type 0} → Codec ListRequest (List Dispatch)
    → Bytes
    → Bytes
    → Action (Option Dispatch)
get_dispatch client codec dispatch_id room =
    agent_call client codec AgentMethod.list_dispatch (λ request. request.room)
      (record { dispatch_id = dispatch_id; room = room })
    >>= λ dispatches. done (elim dispatches [ [] ↦ none | dispatch ∷ more ↦ some dispatch ])
