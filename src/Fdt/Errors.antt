-- ===== src/Fdt/Errors.antt =====
-- The error codes of libfdt/libfdt.h.
use pxa_impedance_matcher.Base.{ℕ, suc, ◌≡◌, ◌⊎◌, List, [], ◌∷◌}
use pxa_impedance_matcher.Base.Int.{ℤ, negsuc}

pub data Error : Type 0 where
  -- Informative: a node or property that is not there, one that is there already, and a buffer that
  -- cannot hold the expanded tree.
  notfound : Error
  exists : Error
  nospace : Error
  -- Bad parameters.
  badoffset : Error
  badpath : Error
  badphandle : Error
  badstate : Error
  -- Bad trees.
  truncated : Error
  badmagic : Error
  badversion : Error
  badstructure : Error
  badlayout : Error
  -- A bug in libfdt.
  internal : Error
  -- Bad content of a tree.
  badncells : Error
  badvalue : Error
  badoverlay : Error
  nophandles : Error

-- FDT_ERR_..., less one.
abbrev pub code_before : Error → ℕ
code_before notfound = 0
code_before exists = 1
code_before nospace = 2
code_before badoffset = 3
code_before badpath = 4
code_before badphandle = 5
code_before badstate = 6
code_before truncated = 7
code_before badmagic = 8
code_before badversion = 9
code_before badstructure = 10
code_before badlayout = 11
code_before internal = 12
code_before badncells = 13
code_before badvalue = 14
code_before badoverlay = 15
code_before nophandles = 16

-- The code, and -FDT_ERR_..., which a function returns.
abbrev pub code_of : Error → ℕ
code_of e = suc (code_before e)

abbrev pub failure : Error → ℤ
failure e = negsuc (code_before e)

abbrev pub IsOneOf : Error → List Error → Type 0
IsOneOf e [] = ⊥
IsOneOf e (x ∷ xs) = (e ≡ x) ⊎ IsOneOf e xs

-- The errors that a function returns for a tree that it cannot read.
abbrev pub standard : List Error
standard = badmagic ∷ badversion ∷ badstate ∷ badstructure ∷ truncated ∷ []
