-- ===== src/System/Steps.antt =====
-- A coordinator thread and its only node as a system of steps: applications are registered
-- (src/coordinator/app_register_handler.cpp), triggers are added
-- (src/coordinator/trigger_op_handler.cpp), objects arrive at the node and are notified
-- (src/coordinator/notify_handler.cpp), and anything else happens that concerns no trigger.
use spheromone.Prelude.{
  ◌<◌, ◌^◌, some, false, ℕ, ◌≤◌, ◌≡◌, subst, subst₂, ◌∙◌, ap, true, List, [], ◌∷◌, All, length,
  nat_eq,
}
use spheromone.Text.{Text, text_eq, empty}
use spheromone.HashMap
use spheromone.HashMap.{HashMap}
use spheromone.Common.Key.{BucketKeyAddress, get_bucket_key_from_addr}
use spheromone.Common.Result.{ok}
use spheromone.Messages.{
  TriggerOperationRequest, add_trigger, KeyNotifyRequest, AppRegistration, Sent, UpdateCoordMsg,
  update_coord,
}
use spheromone.Trigger.Primitive.{Codecs, gen_trigger_pointer}
use spheromone.Trigger.Types.{Trigger}
use spheromone.Coordinator.State.{Coordinator, NodeStatus, broadcast}
use spheromone.Coordinator.TriggerOp.{trigger_op_handler, triggers_of}
use spheromone.Coordinator.Register.{app_register_handler}
use spheromone.Coordinator.Notify.{Run, notify_handler}
use spheromone.Coordinator.Notify.Active.{Untimed}
use spheromone.Scheduler.State.{Node}
use spheromone.Scheduler.Update.{handle_update}
use spheromone.Scheduler.Arrival.{check_object_arrival}
use spheromone.System.Entities.{NodeAgrees, HasSource}
use spheromone.System.Registration.{registration_read}
use spheromone.System.Addition.{addition_agrees}
use spheromone.System.Notification.{object_handled_once}

module _ (codecs : Codecs) (rand_r : ℕ → ℕ × ℕ) (io_thread_num : ℕ) where
  -- A step takes a message to its end: what the coordinator sends the node has read, and what the
  -- node notifies the coordinator has handled. The messages of a handler to the nodes are the same
  -- for all nodes: the node reads the first. An object is of a bucket that has an owner and no timed
  -- trigger; an added trigger has a name and no rerun hints.
  pub data Step (c : Coordinator) (n : Node) : Coordinator → Node → Type 0 where
    registers :
        {c' : Coordinator} {n' : Node} (r : AppRegistration) (ip : Text) (thread_id now later : ℕ)
        (first : Sent) (rest : List Sent) (msg : UpdateCoordMsg)
        → All HasSource r.dependencies
        → app_register_handler codecs r ip thread_id now c ≡ ok (c', first ∷ rest)
        → first.body ≡ update_coord msg
        → handle_update codecs msg later n ≡ ok n'
        → Step c n c' n'
    adds :
        {c' : Coordinator} {n' : Node} (r : TriggerOperationRequest) (ip : Text)
        (thread_id now later : ℕ) (made : Trigger) (answer first : Sent) (rest : List Sent)
        (msg : UpdateCoordMsg)
        → r.operation_type ≡ add_trigger
        → HashMap.has r.bucket_name c.bucket_app ≡ true
        → r.hints ≡ []
        → empty r.trigger_name ≡ false
        → gen_trigger_pointer codecs r.primitive_type r.trigger_name r.primitive now ≡ some made
        → (codecs.by_batch_size.parse r.primitive).count < 2 ^ 32
        → trigger_op_handler codecs r ip thread_id now c ≡ ok (c', answer ∷ first ∷ rest)
        → first.body ≡ update_coord msg
        → handle_update codecs msg later n ≡ ok n'
        → Step c n c' n'
    notifies :
        {c' : Coordinator} {n' : Node} (r : KeyNotifyRequest) (now later seed : ℕ)
        (a : BucketKeyAddress) (address : Text) (others : List Text) (run : Run)
        → Untimed (triggers_of c a.bucket)
        → HashMap.has a.bucket c.bucket_app ≡ true
        → r.addresses ≡ a ∷ []
        → a.ips ≡ address ∷ others
        → 6 ≤ length address
        → r.active_trigger_names ≡ (check_object_arrival (get_bucket_key_from_addr a) now n).0
        → notify_handler rand_r io_thread_num r later c seed ≡ ok run
        → run.state ≡ c'
        → (check_object_arrival (get_bucket_key_from_addr a) now n).2 ≡ n'
        → Step c n c' n'
    other :
        {c' : Coordinator} {n' : Node}
        → c'.bucket_triggers ≡ c.bucket_triggers
        → n'.triggers ≡ n.triggers
        → n'.bucket_triggers ≡ n.bucket_triggers
        → Step c n c' n'

  pub data Reach (c : Coordinator) (n : Node) : Coordinator → Node → Type 0 where
    here : Reach c n c n
    next :
        {c1 c2 : Coordinator} {n1 n2 : Node} → Reach c n c1 n1 → Step c1 n1 c2 n2 → Reach c n c2 n2

  same_message :
      (first : Sent) (rest : List Sent) (msg sent_msg : UpdateCoordMsg)
      (nodes : HashMap Text NodeStatus)
      → first ∷ rest ≡ broadcast sent_msg nodes
      → first.body ≡ update_coord msg
      → sent_msg ≡ msg
  unfolding broadcast
  same_message first rest msg sent_msg [] e b = cc
  same_message first rest msg sent_msg (node ∷ nodes) e b = cc

  Step-NodeAgrees :
      {c c' : Coordinator} {n n' : Node} → Step c n c' n' → NodeAgrees c n → NodeAgrees c' n'
  Step-NodeAgrees {c} {c'} {n} {n'} (registers r ip tid now later first rest msg s e b u) agree =
      let (sent_msg, read_node, sent, read, agrees) =
        registration_read codecs r ip tid now later c c' n (first ∷ rest) agree s e in
      let msgs = same_message first rest msg sent_msg c'.node_status sent b in
      let nodes : read_node ≡ n' =
        cc (read, u, ap (λ (m : UpdateCoordMsg). handle_update codecs m later n) msgs) in
      subst (NodeAgrees c') nodes agrees
  Step-NodeAgrees {c} {c'} {n} {n'}
        (adds r ip tid now later made answer first rest msg t own no_hints full g small e b u)
        agree =
      let (c1, sent_msg, read_node, done, read, agrees) =
        addition_agrees codecs r ip tid now later c n made agree t own no_hints full g small in
      let messages : first ∷ rest ≡ broadcast sent_msg c.node_status = cc (done, e) in
      let msgs = same_message first rest msg sent_msg c.node_status messages b in
      let nodes : read_node ≡ n' =
        cc (read, u, ap (λ (m : UpdateCoordMsg). handle_update codecs m later n) msgs) in
      let coordinators : c1 ≡ c' = cc (done, e) in subst₂ NodeAgrees coordinators nodes agrees
  Step-NodeAgrees {c} {c'} {n} {n'}
        (notifies r now later seed a address others run u own i j l e k p q) agree =
      let (calls, run', done, quiet, nodes, agrees) =
        object_handled_once rand_r io_thread_num r later seed a now c n address others agree u own i
          j l e in
      let runs : run' ≡ run = cc (done, k) in
      subst₂ NodeAgrees (ap (λ (x : Run). x.state) runs ∙ p) q agrees
  Step-NodeAgrees (other e p q) agree = rw (e, p, q) agree

  -- If the coordinator and the node hold the same triggers for every bucket, timed ones excepted,
  -- they do so after any sequence of these steps, in each of which the message is handled before the
  -- next step: applications are registered whose direct dependencies have sources; triggers with a
  -- name and without rerun hints are added; objects of buckets without a timed trigger arrive at the
  -- node and are notified; or something happens that leaves both maps of triggers as they are.
  -- Deletions, and triggers with rerun hints, are none of these.
  pub triggers_stay_the_same :
      {c : Coordinator} {n : Node} {c' : Coordinator} {n' : Node}
      → NodeAgrees c n
      → Reach c n c' n'
      → NodeAgrees c' n'
  triggers_stay_the_same agree here = agree
  triggers_stay_the_same agree (next reach step) =
      Step-NodeAgrees step (triggers_stay_the_same agree reach)
