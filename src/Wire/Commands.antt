-- ===== src/Wire/Commands.antt =====
-- OBD_structs_new.h: the structures of the commands.
use footprints_ev.Base.{List, [], ◌∷◌}
use footprints_ev.Wire.{Layout, bytes, pointers, structs, head, head_no_id, end, bstation_info}

abbrev pub cmd00 : Layout
cmd00 =
    structs 1 head_no_id
    ∷ bytes 12
    ∷ bytes 15
    ∷ bytes 17
    ∷ bytes 20
    ∷ bytes 15
    ∷ bytes 2
    ∷ bytes 2
    ∷ bytes 2
    ∷ structs 1 end
    ∷ []

abbrev pub cmd01 : Layout
cmd01 = structs 1 head ∷ structs 1 end ∷ []

abbrev pub cmd02 : Layout
cmd02 = structs 1 head ∷ bytes 4 ∷ structs 1 end ∷ []

abbrev pub cmd10 : Layout
cmd10 = structs 1 head ∷ bytes 4 ∷ bytes 1 ∷ pointers 1 ∷ structs 1 end ∷ []

abbrev pub cmd13 : Layout
cmd13 = structs 1 head ∷ structs 1 end ∷ []

abbrev pub cmd14 : Layout
cmd14 = structs 1 head ∷ structs 1 end ∷ []

abbrev pub cmd15 : Layout
cmd15 = structs 1 head ∷ structs 1 end ∷ []

abbrev pub cmd16 : Layout
cmd16 = structs 1 head ∷ structs 1 end ∷ []

abbrev pub cmd17 : Layout
cmd17 = structs 1 head ∷ bytes 17 ∷ structs 1 end ∷ []

abbrev pub cmd18 : Layout
cmd18 = structs 1 head ∷ structs 1 end ∷ []

abbrev pub cmd19 : Layout
cmd19 = structs 1 head ∷ structs 1 end ∷ []

abbrev pub cmd1a : Layout
cmd1a = structs 1 head ∷ structs 1 end ∷ []

abbrev pub cmd1b : Layout
cmd1b = structs 1 head ∷ structs 1 end ∷ []

abbrev pub cmd22 : Layout
cmd22 =
    structs 1 head
    ∷ bytes 6
    ∷ bytes 2
    ∷ bytes 1
    ∷ bytes 8
    ∷ bytes 1
    ∷ bytes 2
    ∷ bytes 1
    ∷ pointers 1
    ∷ structs 1 end
    ∷ []

abbrev pub cmd21 : Layout
cmd21 = structs 1 head ∷ bytes 4 ∷ bytes 4 ∷ bytes 2 ∷ bytes 1 ∷ structs 1 end ∷ []

abbrev pub cmd30 : Layout
cmd30 = structs 1 head ∷ bytes 1 ∷ structs 1 end ∷ []

abbrev pub cmd34 : Layout
cmd34 = structs 1 head ∷ bytes 1 ∷ bytes 1 ∷ bytes 1 ∷ bytes 1 ∷ structs 1 end ∷ []

abbrev pub cmd42 : Layout
cmd42 = structs 1 head ∷ bytes 1 ∷ bytes 1 ∷ bytes 1 ∷ bytes 1 ∷ pointers 2 ∷ structs 1 end ∷ []

abbrev pub cmd43 : Layout
cmd43 = structs 1 head ∷ bytes 1 ∷ structs 1 end ∷ []

abbrev pub cmd32 : Layout
cmd32 =
    structs 1 head
    ∷ bytes 2
    ∷ bytes 1
    ∷ bytes 4
    ∷ bytes 4
    ∷ bytes 1
    ∷ bytes 2
    ∷ bytes 2
    ∷ bytes 2
    ∷ bytes 2
    ∷ structs 1 end
    ∷ []

abbrev pub cmd33 : Layout
cmd33 =
    structs 1 head
    ∷ bytes 2
    ∷ bytes 2
    ∷ bytes 2
    ∷ bytes 1
    ∷ structs 6 bstation_info
    ∷ bytes 2
    ∷ bytes 2
    ∷ bytes 2
    ∷ structs 1 end
    ∷ []

abbrev pub cmd50 : Layout
cmd50 = structs 1 head ∷ bytes 1 ∷ bytes 1 ∷ structs 1 end ∷ []

abbrev pub cmd07_00 : Layout
cmd07_00 = structs 1 head ∷ bytes 1 ∷ bytes 4 ∷ bytes 4 ∷ structs 1 end ∷ []

abbrev pub cmd07_01 : Layout
cmd07_01 = structs 1 head ∷ bytes 1 ∷ bytes 2 ∷ bytes 4 ∷ pointers 1 ∷ structs 1 end ∷ []

abbrev pub cmd07_02 : Layout
cmd07_02 = structs 1 head ∷ bytes 1 ∷ structs 1 end ∷ []

abbrev pub cmd08_00 : Layout
cmd08_00 = structs 1 head ∷ bytes 1 ∷ bytes 4 ∷ bytes 4 ∷ bytes 4 ∷ structs 1 end ∷ []

abbrev pub cmd08_ff : Layout
cmd08_ff =
    structs 1 head ∷ bytes 1 ∷ bytes 2 ∷ bytes 1 ∷ structs 6 bstation_info ∷ structs 1 end ∷ []

abbrev pub cmd08_01 : Layout
cmd08_01 = structs 1 head ∷ bytes 1 ∷ bytes 1 ∷ pointers 1 ∷ structs 1 end ∷ []

-- all of them
abbrev pub commands : List Layout
commands =
    cmd00 ∷ cmd01 ∷ cmd02 ∷ cmd10 ∷ cmd13 ∷ cmd14 ∷ cmd15 ∷ cmd16 ∷ cmd17 ∷ cmd18 ∷ cmd19 ∷ cmd1a
    ∷ cmd1b ∷ cmd22 ∷ cmd21 ∷ cmd30 ∷ cmd34 ∷ cmd42 ∷ cmd43 ∷ cmd32 ∷ cmd33 ∷ cmd50 ∷ cmd07_00
    ∷ cmd07_01 ∷ cmd07_02 ∷ cmd08_00 ∷ cmd08_ff ∷ cmd08_01 ∷ []
