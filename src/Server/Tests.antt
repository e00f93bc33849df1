-- ===== src/Server/Tests.antt =====
-- A run of service_dev_provision of src/port/src/ThingsBoard/portServer.c.
use modbus_things.Base.{Option, none, some, []}
use modbus_things.Base.Int.{pos}
use modbus_things.Base.Text.{Text, codes}
use modbus_things.Scan.{Cjson}
use modbus_things.Server.{Http}

-- A client whose answer is an empty document.
abbrev http : Http (Option Text)
http = record {
  no_header = none;
  add_header = λ header line. some line;
  request = λ uri header body. some (pos 0, some (codes "{}"));
}

abbrev pub json : Cjson Text
json = record {
  parse = λ t. some t;
  get_object_item = λ root key. none;
  items = λ j. [];
  valueint = λ j. pos 0;
  valuestring = λ j. none;
}

abbrev pub show_length : Text → Text
show_length body = codes "Content-Length: 99\r\n"
