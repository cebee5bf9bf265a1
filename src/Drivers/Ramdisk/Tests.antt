-- ===== src/Drivers/Ramdisk/Tests.antt =====
-- A file of two characters, and the theorems at it.
use avros.Base.{◌≡◌, [], ◌∷◌, arith, some, none}
use avros.Drivers.Ramdisk.{MfNode, Nodes, mf_read, mf_create_node, mf_max_nodes}
use avros.Drivers.Ramdisk.File.{write_all, mf_read-write_all}
use avros.Drivers.Ramdisk.Create.{Created, mf_create_node-Created}

abbrev a_file : MfNode
a_file = record { refcnt = 1; links = 0; flags = 0; file = λ _. 0; size = 0 }

mf_read-write_all_example : mf_read 1 0 (write_all 0 (104 ∷ 105 ∷ []) a_file) ≡ some (105, 1)
mf_read-write_all_example = mf_read-write_all 104 (105 ∷ []) a_file 1 0 (omega arith) (omega arith)

abbrev no_nodes : Nodes
no_nodes i = none

mf_create_node-Created_example : Created mf_max_nodes 0 0 no_nodes (mf_create_node 0 no_nodes)
mf_create_node-Created_example = mf_create_node-Created 0 no_nodes
