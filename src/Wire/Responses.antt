-- ===== src/Wire/Responses.antt =====
-- OBD_structs_new.h: the structures of the responses.
use footprints_ev.Base.{List, [], ◌∷◌}
use footprints_ev.Wire.{Layout, bytes, pointers, structs, head, head_no_id, end}

abbrev pub response00 : Layout
response00 = structs 1 head_no_id ∷ bytes 4 ∷ pointers 1 ∷ structs 1 end ∷ []

abbrev pub response01 : Layout
response01 = structs 1 head ∷ bytes 6 ∷ structs 1 end ∷ []

abbrev pub response02 : Layout
response02 = structs 1 head ∷ bytes 4 ∷ structs 1 end ∷ []

abbrev pub response10 : Layout
response10 = structs 1 head ∷ bytes 4 ∷ bytes 1 ∷ pointers 1 ∷ bytes 1 ∷ []

abbrev pub response13 : Layout
response13 = structs 1 head ∷ bytes 12 ∷ structs 1 end ∷ []

abbrev pub response14 : Layout
response14 = structs 1 head ∷ bytes 1 ∷ bytes 17 ∷ structs 1 end ∷ []

abbrev pub response15 : Layout
response15 = structs 1 head ∷ bytes 1 ∷ bytes 1 ∷ structs 1 end ∷ []

abbrev pub response16 : Layout
response16 = structs 1 head ∷ structs 1 end ∷ []

abbrev pub response17 : Layout
response17 = structs 1 head ∷ bytes 17 ∷ structs 1 end ∷ []

abbrev pub response18 : Layout
response18 = structs 1 head ∷ bytes 2 ∷ bytes 2 ∷ bytes 2 ∷ structs 1 end ∷ []

abbrev pub response19 : Layout
response19 = structs 1 head ∷ bytes 20 ∷ structs 1 end ∷ []

abbrev pub response1a : Layout
response1a = structs 1 head ∷ bytes 15 ∷ structs 1 end ∷ []

abbrev pub response1b : Layout
response1b = structs 1 head ∷ bytes 15 ∷ structs 1 end ∷ []

abbrev pub response22 : Layout
response22 = structs 1 head ∷ bytes 6 ∷ bytes 1 ∷ structs 1 end ∷ []

abbrev pub response21 : Layout
response21 = structs 1 head ∷ bytes 4 ∷ bytes 4 ∷ bytes 2 ∷ bytes 1 ∷ bytes 1 ∷ structs 1 end ∷ []

abbrev pub response30 : Layout
response30 =
    structs 1 head
    ∷ bytes 6
    ∷ bytes 2
    ∷ bytes 1
    ∷ bytes 2
    ∷ bytes 2
    ∷ bytes 2
    ∷ bytes 1
    ∷ bytes 4
    ∷ bytes 4
    ∷ bytes 2
    ∷ bytes 2
    ∷ bytes 2
    ∷ bytes 2
    ∷ bytes 2
    ∷ bytes 1
    ∷ bytes 4
    ∷ structs 1 end
    ∷ []

abbrev pub response34 : Layout
response34 = structs 1 head ∷ bytes 1 ∷ bytes 1 ∷ bytes 1 ∷ bytes 1 ∷ structs 1 end ∷ []

abbrev pub response42 : Layout
response42 = structs 1 head ∷ bytes 6 ∷ bytes 1 ∷ bytes 1 ∷ pointers 1 ∷ structs 1 end ∷ []

abbrev pub response43 : Layout
response43 = structs 1 head ∷ bytes 1 ∷ bytes 1 ∷ structs 1 end ∷ []

abbrev pub response33 : Layout
response33 = structs 1 head ∷ bytes 4 ∷ bytes 4 ∷ structs 1 end ∷ []

abbrev pub response50 : Layout
response50 = structs 1 head ∷ bytes 6 ∷ bytes 1 ∷ bytes 1 ∷ pointers 1 ∷ structs 1 end ∷ []

abbrev pub response07_00 : Layout
response07_00 = structs 1 head ∷ bytes 1 ∷ bytes 1 ∷ structs 1 end ∷ []

abbrev pub response07_01 : Layout
response07_01 = structs 1 head ∷ bytes 1 ∷ bytes 1 ∷ structs 1 end ∷ []

abbrev pub response07_02 : Layout
response07_02 = structs 1 head ∷ bytes 1 ∷ bytes 1 ∷ structs 1 end ∷ []

abbrev pub response08_01 : Layout
response08_01 = structs 1 head ∷ bytes 1 ∷ bytes 1 ∷ structs 1 end ∷ []

-- all of them
abbrev pub responses : List Layout
responses =
    response00 ∷ response01 ∷ response02 ∷ response10 ∷ response13 ∷ response14 ∷ response15
    ∷ response16 ∷ response17 ∷ response18 ∷ response19 ∷ response1a ∷ response1b ∷ response22
    ∷ response21 ∷ response30 ∷ response34 ∷ response42 ∷ response43 ∷ response33 ∷ response50
    ∷ response07_00 ∷ response07_01 ∷ response07_02 ∷ response08_01 ∷ []
