-- ===== src/Xml.antt =====
-- common/xml_parser.py: the parser of the XML of requests and responses, on lists of code points.
-- What `\w` matches is a parameter, and `\s` is the interpreter's white space.
pub mod Attributes
pub mod Parser
pub mod Stuck
pub mod Progress
use sam_ken_x_dnssec_keytool.Prelude.{Option}
use sam_ken_x_dnssec_keytool.Prelude.Dict.{Dict}
use sam_ken_x_dnssec_keytool.Texts.{Text}

-- What the parser returns: the value of an element is a string, the dictionary of the elements in it,
-- the dictionary of its attributes and its value, or the list of the values of its name.
mutual
  pub data Value : Type 0 where
    text : Text → Value
    nested : Elements → Value
    with_attrs : Dict Text Text → Value → Value
    several : Values → Value

  pub data Values : Type 0 where
    no_values : Values
    value : Value → Values → Values

  -- the dictionary of the elements, by name
  pub data Elements : Type 0 where
    no_elements : Elements
    element : Text → Value → Elements → Elements

-- `_XMLElement`, as long as its value is text
pub record XmlElement : Type 0 where
  pub name : Text
  pub attrs : Option (Dict Text Text)
  pub value : Text
