-- ===== src/Coordinator/State.antt =====
-- The state of a coordinator thread: the maps of `run` in src/coordinator/coordinator.cpp, the
-- structures of src/coordinator/coord_handlers.hpp, and the addresses that the handlers form.
use spheromone.Prelude.{ℕ, ◌+◌, Option, none, some, List, [], ◌++◌, map}
use spheromone.Prelude.Int.{ℤ, pos}
use spheromone.Text.{Text, text, text_eq, to_string}
use spheromone.HashMap
use spheromone.HashMap.{HashMap}
use spheromone.HashSet
use spheromone.HashSet.{HashSet}
use spheromone.Common.Key.{BucketKey}
use spheromone.Trigger.Types.{Trigger}
use spheromone.Messages.{KvsError, success, key_ne, UpdateCoordMsg, Sent, update_coord}

-- tp_ is the clock reading of the last status message.
pub record NodeStatus : Type 0 where
  pub tp : ℕ
  pub avail_executors : ℤ
  pub functions : HashSet Text

-- A node that no status message has named.
abbrev pub no_status : NodeStatus
no_status = record { tp = 0; avail_executors = pos 0; functions = [] }

pub record Coordinator : Type 0 where
  pub key_address : HashMap Text (HashMap Text (HashSet Text))
  pub key_val : HashMap Text Text
  pub bucket_node : HashMap Text (HashSet Text)
  pub bucket_triggers : HashMap Text (List Trigger)
  pub app_buckets : HashMap Text (HashSet Text)
  pub bucket_app : HashMap Text Text
  pub node_status : HashMap Text NodeStatus

abbrev pub initial : Coordinator
initial = record {
  key_address = [];
  key_val = [];
  bucket_node = [];
  bucket_triggers = [];
  app_buckets = [];
  bucket_app = [];
  node_status = [];
}

unfoldable pub update_address :
    BucketKey
    → Text
    → HashMap Text (HashMap Text (HashSet Text))
    → HashMap Text (HashMap Text (HashSet Text))
update_address b addr m =
    let keys = HashMap.get_or b.bucket m [] in
    HashMap.put b.bucket
      (HashMap.put b.key (HashSet.insert addr (HashMap.get_or b.key keys [])) keys) m

pub record GetAddressResult : Type 0 where
  pub error : KvsError
  pub addr : HashSet Text

abbrev get_address_in : Option (HashSet Text) → GetAddressResult
get_address_in none = record { error = key_ne; addr = [] }
get_address_in (some addr) = record { error = success; addr = addr }

-- The bucket's key is looked up only if the bucket is there.
unfoldable pub get_address :
    BucketKey → HashMap Text (HashMap Text (HashSet Text)) → GetAddressResult
get_address b m = elim (HashMap.find b.bucket m) [
  | none ↦ get_address_in none
  | some keys ↦ get_address_in (HashMap.find b.key keys)
]

abbrev pub func_exec_port : ℕ
func_exec_port = 4300

abbrev pub trigger_update_port : ℕ
trigger_update_port = 7700

unfoldable pub get_func_exec_address : Text → ℕ → Text
get_func_exec_address ip io_thread =
    text "tcp://" ++ ip ++ text ":" ++ to_string (func_exec_port + io_thread)

unfoldable pub trigger_update_address : Text → Text
trigger_update_address ip = text "tcp://" ++ ip ++ text ":" ++ to_string trigger_update_port

-- for (auto &ip_status : node_status_map) send msg to the node
unfoldable pub broadcast : UpdateCoordMsg → HashMap Text NodeStatus → List Sent
unfolding trigger_update_address
broadcast msg nodes =
    map (λ node. record { to = trigger_update_address node.0; body = update_coord msg }) nodes
