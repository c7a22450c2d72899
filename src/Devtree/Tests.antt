-- ===== src/Devtree/Tests.antt =====
-- taskman/sys/fdt.c: a small device tree blob.
use lq.Base.{
  ℕ, ◌+◌, ◌/◌, ◌%◌, ◌^◌, ◌-◌, ◌≡◌, refl, Option, some, List, [], ◌∷◌, ◌++◌, arith, codes, length,
  be_from, c_string, w32,
}
use lq.Devtree.Walk.{
  unfinished, ended, check, token, walk, is_prop, find_prop, find_child_node, step_token, to_int,
  walk_node, same_string, s_eqn,
}
use lq.Devtree.Query.{
  path, prop, prop_word, prop_str, component, skip_slash, skip_nops, root, path_from,
}
use lq.Devtree.Below.{below-Sane}
use lq.Devtree.Ends.{Sane, find_ends, walk_stuck}

abbrev be4 : ℕ → List ℕ
be4 v = v / 2 ^ 24 % 256 ∷ v / 2 ^ 16 % 256 ∷ v / 2 ^ 8 % 256 ∷ v % 256 ∷ []

-- A root with a model, and a node for the cpus with their time base.
abbrev tokens : List ℕ
tokens =
    be4 1
    ++ (be4 0
        ++ (be4 3
            ++ (be4 5
                ++ (be4 0
                    ++ (codes "qemu"
                        ++ (be4 0
                            ++ (be4 1
                                ++ (codes "cpus"
                                    ++ (be4 0
                                        ++ (be4 3
                                            ++ (be4 4
                                                ++ (be4 6
                                                    ++ (be4 10000000
                                                        ++ (be4 2 ++ (be4 2 ++ be4 9)))))))))))))))

abbrev header : ℕ → ℕ → List ℕ
header strings_at size =
    be4 0xd00dfeed
    ++ (be4 size
        ++ (be4 40
            ++ (be4 strings_at ++ (be4 0 ++ (be4 17 ++ (be4 16 ++ (be4 0 ++ (be4 0 ++ be4 0))))))))

abbrev names : List ℕ
names = codes "model" ++ (0 ∷ codes "timebase-frequency" ++ 0 ∷ [])

abbrev blob : List ℕ
blob = header (40 + length tokens) (40 + length tokens + length names) ++ (tokens ++ names)

blob-Sane : Sane blob 28
unfolding token be_from step_token to_int c_string
blob-Sane = below-Sane blob 28 (omega arith) refl refl refl

cpus_found : path blob (codes "/cpus") ≡ some 28
unfolding path path_from component skip_slash skip_nops root check token find_child_node walk_node
    walk step_token to_int be_from c_string s_eqn
cpus_found = refl

timebase_found : prop_word blob 4 28 (codes "timebase-frequency") ≡ some 10000000
unfolding prop_word prop check token find_prop walk_node walk step_token to_int be_from c_string
    same_string
timebase_found = refl

model_found : prop_str blob 0 (codes "model") ≡ some (codes "qemu")
unfolding prop_str prop check token find_prop walk_node walk step_token to_int be_from c_string
    same_string
model_found = refl

find_ends_example :
    ((r : Option (ℕ × ℕ)) × (find_prop blob (codes "model") 28 ≡ ended r))
    × ((r : Option ℕ) × (find_child_node blob (codes "model") 28 ≡ ended r))
find_ends_example = find_ends blob (codes "model") 28 blob-Sane

-- A property with the length 2^32 - 12.
abbrev stuck_blob : List ℕ
stuck_blob = header 56 56 ++ (be4 1 ++ (be4 0 ++ (be4 3 ++ be4 (w32 - 12))))

walk_stuck_example : walk stuck_blob (is_prop stuck_blob (codes "reg")) 1000 1 8 ≡ unfinished
unfolding token be_from c_string same_string
walk_stuck_example = walk_stuck stuck_blob (codes "reg") 1000 1 8 (omega arith) refl refl refl
