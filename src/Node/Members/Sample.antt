-- ===== src/Node/Members/Sample.antt =====
-- A node with a father, a brother and a child.
use libatbus.Base.{◌<◌, inl, inr, refl, subst, true, false, none, some, [], ◌∷◌, arith, some_inj}
use libatbus.Endpoint.Domain.{
  EndpointPtr, IsValid, is_child_node, get_children_min_id, get_children_max_id,
}
use libatbus.Endpoint.Select.{Endpoint}
use libatbus.Node.State.{Node, Family, Peer, Conf, Timer, running}
use libatbus.Node.Members.Sound.{Sound, Over, Below, Beside}

abbrev pub me : EndpointPtr
me = record { handle = 1; id = 0x200; children_mask = 8 }

abbrev pub parent : EndpointPtr
parent = record { handle = 2; id = 0x1; children_mask = 16 }

abbrev pub sibling : EndpointPtr
sibling = record { handle = 3; id = 0x300; children_mask = 8 }

abbrev pub kid : EndpointPtr
kid = record { handle = 4; id = 0x210; children_mask = 4 }

abbrev pub newcomer : EndpointPtr
newcomer = record { handle = 5; id = 0x220; children_mask = 4 }

abbrev pub sample : Family
sample = record {
  self = me;
  father = some parent;
  brother = (0x3ff, sibling) ∷ [];
  children = (0x21f, kid) ∷ [];
}

abbrev pub quiet : Endpoint
quiet = record {
  handle = 0;
  hostname = [];
  pid = 0;
  resetting = false;
  connection_sorted = false;
  ctrl_conn = none;
  data_conn = [];
}

abbrev pub nobody : Peer
nobody = record {
  this = me;
  endpoint = quiet;
  global_router = false;
  listen_address = [];
  fault_count = 0;
  unfinished_ping = 0;
  ping_delay = 0;
  last_pong_time = 0;
}

abbrev pub settings : Conf
settings = record {
  father_address = [];
  ttl = 16;
  first_idle_timeout = 30;
  ping_interval = 60;
  retry_interval = 3;
  fault_tolerant = 3;
  msg_size = 65536;
}

abbrev pub clock : Timer
clock = record {
  sec = 100;
  usec = 0;
  node_sync_push = 0;
  father_opr_time_point = 0;
  ping_list = [];
  connecting_list = [];
  pending_check_list = [];
}

abbrev pub start : Node
start = record {
  handle = 9;
  state = running;
  resetting = false;
  actived = true;
  parent_reg_done = true;
  shut_down = false;
  conf = settings;
  seq = 0;
  dispatch_times = 0;
  family = sample;
  timer = clock;
  peer = λ h. nobody;
  log = [];
}

pub valid : (e : EndpointPtr) → e.id < 0x1000 → e.children_mask < 20 → IsValid e
valid e h m = record { id_bound = omega arith; mask_bound = omega arith }

pub sample-Sound : Sound sample
unfolding is_child_node get_children_min_id get_children_max_id
sample-Sound = record {
  self_valid = valid me (omega arith) (omega arith);
  brother_formed = omega arith;
  children_formed = omega arith;
  father_over = λ p e.
      subst (Over sample) (some_inj e)
        (valid parent (omega arith) (omega arith), omega arith, (omega arith, omega arith));
  children_below =
      λ e h. elim h [ inl eq ↦ subst (Below sample) eq (refl, omega arith) | inr h' ↦ elim h' [ ] ];
  brother_beside = λ e h. elim h [ inl eq ↦ subst (Beside sample) eq refl | inr h' ↦ elim h' [ ] ];
}
