-- ===== src/Proc/Sample.antt =====
-- taskman/proc: a small system with a kernel that never fails, for tests.
use lq.Base.{ℕ, ◌+◌, true, false, [], ◌∷◌}
use lq.Chan.State.{Registry}
use lq.Chan.Sample.{local}
use lq.Proc.State.{Process, System, Kernel, Abi, nowhere}

abbrev pub abi : Abi
abi = record {
  taskman = 1;
  max_processes = 64;
  max_tid = 32;
  mmap_base = 0x20000000;
  untyped = 0;
  endpoint = 2;
  notification = 3;
  notification_bits = 6;
  tcb = 1;
  reply = 6;
  page_4k = 9;
  page_table = 11;
  sched_context = 5;
  sched_context_bits = 8;
  rights_all = 15;
  rights_send = 11;
  rights_write = 1;
  chf_global = 4;
  chf_pulse_direct = 8;
  global_channel = 0x20000000;
  side_channel = 0x40000000;
  ntfn_badge = 0x8000;
  ntfn_direct = 0x4000;
  init_tcb = 1;
  init_vspace = 3;
  master_ut = 20;
  cnode_root = 2;
  sched_control = 30;
  num_nodes = 4;
  is_global = local;
}

-- The state of the kernel is the number of calls.
abbrev pub kernel : Kernel ℕ
kernel = record {
  retype = λ ut type bits root slot k. (true, k + 1);
  copy = λ to from rights k. (true, k + 1);
  mint = λ to from rights badge k. (true, k + 1);
  move = λ to from k. (true, k + 1);
  delete = λ cap k. (true, k + 1);
  revoke = λ cap k. (true, k + 1);
  bind_notification = λ tcb ntfn k. (true, k + 1);
  unbind_notification = λ tcb k. (true, k + 1);
  set_priority = λ tcb auth prio k. (true, k + 1);
  sched_configure = λ control sc k. (true, k + 1);
  map_page = λ frame vspace va k. (true, k + 1);
  map_table = λ table vspace va k. (true, k + 1);
  tcb_configure = λ tcb cnode vspace va frame k. (true, k + 1);
  tcb_sched = λ tcb auth mcp prio sc fault k. (true, k + 1);
  reply = λ slot label mr0 k. k + 1;
}

abbrev pub blank : Process
blank = record {
  in_use = false;
  pid = 0;
  cnode = 0;
  next_slot = 0;
  tcb = 0;
  sc = 0;
  sched_prio = 10;
  sched_policy = 2;
  vspace = 0;
  untyped_budget = 0;
  workers_l1_pt = 0;
  workers_l0_pt = 0;
  next_tid = 0;
  parent_pid = 0;
  exit_state = 0;
  exit_status = 0;
  waiter_reply_slot = 0;
  signal_chid = 0;
  space = record { mmap = []; free_list = []; top = 0; devframes = []; mprot = [] };
  cred = record { ruid = 0; euid = 0; suid = 0; rgid = 0; egid = 0; sgid = 0 };
  cwd = [];
  umask = 0;
  itimer_expiry_ticks = 0;
  itimer_interval_ticks = 0;
  pput = [];
  objcnode = 0;
  objcnode_next = 0;
  fault_ep = 0;
}

-- Process 2, a child of process 3.
abbrev pub child : Process
child = record blank {
  in_use = true;
  pid = 2;
  cnode = 50;
  next_tid = 2;
  next_slot = 16;
  tcb = 51;
  vspace = 52;
  parent_pid = 3;
  pput = 60 ∷ [];
}

abbrev pub parent : Process
parent = record blank { in_use = true; pid = 3; cnode = 70; tcb = 71; vspace = 72; parent_pid = 1 }

abbrev pub system : Registry → System ℕ
system r = record {
  processes = child ∷ parent ∷ blank ∷ [];
  threads = [];
  registry = r;
  slots = record { next = 100; free_list = [] };
  pids = record { next = 4; free_list = [] };
  next_badge = 10;
  next_global = 1;
  next_pipe = 1;
  pput_free = [];
  ram_ut = [];
  cur_pput = 0;
  cur_list = nowhere;
  staged = [];
  active_reply = 40;
  kernel = 0;
}
