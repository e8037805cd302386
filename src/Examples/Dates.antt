-- ===== src/Examples/Dates.antt =====
-- `formatTimestamp` of src/ge/http/HttpUtil.cpp at a concrete date.
use libge.Timestamp.{Date}

-- 13 Feb 2012 19:44:06
abbrev in_february : Date
in_february = record {
  year = 2012;
  month = 1;
  day_of_week = 1;
  day_of_month = 13;
  hour = 19;
  minute = 44;
  second = 6;
}
