-- ===== src/Alloc/Tests.antt =====
-- Pids 2 and 3 are handed out, 2 comes back and is handed out again.
use lq.Base.{◌≡◌, refl, arith, [], ◌∷◌, some}
use lq.Alloc.Numbers.{Numbers, pid_alloc, pid_free}
use lq.Alloc.Fresh.{Fresh, count, pid_alloc-Fresh}

abbrev pids : Numbers
pids = record { next = 2; free_list = [] }

pids-Fresh : Fresh [] pids
pids-Fresh = record { once = λ n. omega arith; below = λ n h. omega arith }

first_pid : (pid_alloc 128 pids).0 ≡ some 2
unfolding pid_alloc
first_pid = refl

second_pid : (pid_alloc 128 (pid_alloc 128 pids).1).0 ≡ some 3
unfolding pid_alloc
second_pid = refl

one_held : (count 2 [] ≡ 0) × Fresh (2 ∷ []) (pid_alloc 128 pids).1
one_held = pid_alloc-Fresh [] 128 2 pids pids-Fresh first_pid

pid_alloc-Fresh_example :
    (count 3 (2 ∷ []) ≡ 0) × Fresh (3 ∷ 2 ∷ []) (pid_alloc 128 (pid_alloc 128 pids).1).1
pid_alloc-Fresh_example =
    pid_alloc-Fresh (2 ∷ []) 128 3 (pid_alloc 128 pids).1 one_held.1 second_pid

reused : (pid_alloc 128 (pid_free 128 1 2 (pid_alloc 128 pids).1)).0 ≡ some 2
unfolding pid_alloc pid_free
reused = refl
