-- ===== src/Coordinator/Notify/Pick.antt =====
-- The node that notify_handler picks for a call (src/coordinator/notify_handler.cpp, 150-199).
use spheromone.Prelude.{[], ◌∷◌, if◌then◌else◌, nat_eq}
use spheromone.Prelude.Int.{ℤ, pos, ltb_ℤ, pred_ℤ}
use spheromone.Text.{Text, text_eq, empty}
use spheromone.HashMap
use spheromone.HashMap.{HashMap}
use spheromone.HashSet.{HashSet}
use spheromone.Coordinator.State.{NodeStatus, no_status}

-- The node under way and its free executors.
abbrev pub Pick : Type 0
Pick = Text × ℤ

abbrev pub better : Text → NodeStatus → Pick → Pick
better ip status pick =
    if ltb_ℤ pick.1 status.avail_executors then (ip, status.avail_executors) else pick

-- Among the nodes that hold an argument. node_status_map[ip] adds a node that is not known.
unfoldable pub pick_near :
    HashSet Text → HashMap Text NodeStatus → Pick → Pick × HashMap Text NodeStatus
pick_near [] nodes pick = (pick, nodes)
pick_near (ip ∷ ips) nodes pick =
    let status = HashMap.get_or ip nodes no_status in
    pick_near ips (HashMap.touch ip nodes no_status) (better ip status pick)

-- Among all nodes.
unfoldable pub pick_any : HashMap Text NodeStatus → Pick → Pick
pick_any [] pick = pick
pick_any ((ip, status) ∷ rest) pick = pick_any rest (better ip status pick)

unfoldable pub pick_worker : HashSet Text → HashMap Text NodeStatus → Text × HashMap Text NodeStatus
unfolding pick_near pick_any
pick_worker near nodes =
    let (pick, nodes') = pick_near near nodes ([], pos 0) in
    if empty pick.0 then ((pick_any nodes' pick).0, nodes') else (pick.0, nodes')

-- avail_executors_-- of the node that a call went to.
unfoldable pub take_executor : Text → HashMap Text NodeStatus → HashMap Text NodeStatus
take_executor ip nodes =
    let status = HashMap.get_or ip nodes no_status in
    HashMap.put ip (record status { avail_executors = pred_ℤ status.avail_executors }) nodes
