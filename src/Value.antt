-- ===== src/Value.antt =====
-- Values of the dynamic language: what `Any` stands for in metadata, receipts and amounts.
use cycles_ap2_python.Base.{Bool, String}
use cycles_ap2_python.Base.Int.{ℤ}

-- A float is kept by its `repr`; `object` is any other value, by the name of its class.
mutual
  pub data Value : Type 0 where
    null : Value
    bool : Bool → Value
    int : ℤ → Value
    float : String → Value
    str : String → Value
    array : Items → Value
    dict : Fields → Value
    object : String → Value

  pub data Items : Type 0 where
    nil : Items
    cons : Value → Items → Items

  pub data Fields : Type 0 where
    end : Fields
    field : String → Value → Fields → Fields

-- `type(v).__name__`
unfoldable pub type_name : Value → String
type_name null = "NoneType"
type_name (bool b) = "bool"
type_name (int n) = "int"
type_name (float s) = "float"
type_name (str s) = "str"
type_name (array xs) = "list"
type_name (dict fs) = "dict"
type_name (object name) = name
