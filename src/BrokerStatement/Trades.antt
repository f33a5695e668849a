-- ===== src/BrokerStatement/Trades.antt =====
-- The trades of src/broker_statement/trades.rs: what is bought, what is sold, and which part of which
-- lot a sale takes. A date is its number of days and a time its number of seconds, with midnight for
-- none. The results of a sale in the currency of a country are left out.
use investments.Base.{
  String, Bool, true, false, not, ◌&&◌, Option, none, List, [], ◌∷◌, ◌++◌, map, Result, ok, err,
  if◌then◌else◌,
}
use investments.Base.Int.{ℤ}
use investments.Base.Decimal.{Decimal, nought, dec, ◌⊕◌, ◌⊖◌, ◌⊗◌, ◌⊘◌, led, eqd, is_zero, sum_from}
use investments.Currency.{Cash}

pub data PurchaseCostType : Type 0 where
  of_trade of_commission : PurchaseCostType

pub record PurchaseTransaction (D : Type 0) : Type 0 where
  pub date : ℤ
  pub type_ : PurchaseCostType
  pub cost : Cash String D

-- The two parts of the fraction are `fraction.0` and `fraction.1`.
pub record PurchaseCost (D : Type 0) : Type 0 where
  pub transactions : List (PurchaseTransaction D)
  pub fraction : D × D

pub data StockSource (D : Type 0) : Type 0 where
  trade : Cash String D → Cash String D → Cash String D → StockSource D
  corporate_action grant : StockSource D

pub record StockBuy (D : Type 0) : Type 0 where
  pub symbol : String
  pub original_symbol : String
  pub quantity : D
  pub type_ : StockSource D
  pub cost : List (PurchaseCost D)
  pub conclusion_time : ℤ
  pub execution_date : ℤ
  pub out_of_order_execution : Bool
  pub trade_id : Option String
  pub sold : D

pub record StockSellSource (D : Type 0) : Type 0 where
  pub original_symbol : String
  pub quantity : D
  pub multiplier : D
  pub type_ : StockSource D
  pub cost : List (PurchaseCost D)
  pub conclusion_time : ℤ
  pub execution_date : ℤ
  pub trade_id : Option String

pub data StockSellType (D : Type 0) : Type 0 where
  trade : Cash String D → Cash String D → Cash String D → StockSellType D
  corporate_action : StockSellType D

pub record StockSell (D : Type 0) : Type 0 where
  pub symbol : String
  pub original_symbol : String
  pub quantity : D
  pub type_ : StockSellType D
  pub conclusion_time : ℤ
  pub execution_date : ℤ
  pub out_of_order_execution : Bool
  pub trade_id : Option String
  pub emulation : Bool
  pub sources : List (StockSellSource D)

-- `!is_empty()`.
unfoldable pub is_not_empty : {A : Type 0} → List A → Bool
is_not_empty [] = false
is_not_empty (_ ∷ _) = true

-- A failed assertion, the error of `process_trades`, which names the original symbol, and the end of
-- the fuel of its loop, which the code does not have.
pub data TradeError : Type 0 where
  panic out_of_fuel : TradeError
  no_open_positions : String → TradeError

module _ {D : Type 0} ⦃d : Decimal D⦄ where
  -- A transaction, unless it is of nothing.
  unfoldable pub transaction_of :
      ℤ → PurchaseCostType → Cash String D → List (PurchaseTransaction D)
  transaction_of date type_ cost =
      if is_zero cost.amount then [] else record { date = date; type_ = type_; cost = cost } ∷ []

  unfoldable pub new_from_trade : ℤ → ℤ → Cash String D → Cash String D → List (PurchaseCost D)
  unfolding transaction_of
  new_from_trade conclusion_date execution_date volume commission =
      record {
        transactions =
            transaction_of execution_date of_trade volume
            ++ transaction_of conclusion_date of_commission commission;
        fraction = (dec 1 0, dec 1 0);
      }
      ∷ []

  -- `StockBuy::new_trade`; the date of the conclusion is given with its time.
  unfoldable pub new_buy :
      String → D → Cash String D → Cash String D → Cash String D → ℤ → ℤ → ℤ → StockBuy D
  unfolding new_from_trade
  new_buy symbol quantity price volume commission conclusion_date conclusion_time execution_date =
      record {
        symbol = symbol;
        original_symbol = symbol;
        quantity = quantity;
        type_ = StockSource.trade price volume commission;
        cost = new_from_trade conclusion_date execution_date volume commission;
        conclusion_time = conclusion_time;
        execution_date = execution_date;
        out_of_order_execution = false;
        trade_id = none;
        sold = nought;
      }

  unfoldable pub new_grant : ℤ → ℤ → String → D → StockBuy D
  new_grant date time symbol quantity = record {
    symbol = symbol;
    original_symbol = symbol;
    quantity = quantity;
    type_ = StockSource.grant;
    cost = [];
    conclusion_time = time;
    execution_date = date;
    out_of_order_execution = true;
    trade_id = none;
    sold = nought;
  }

  unfoldable pub new_corporate_action : String → D → List (PurchaseCost D) → ℤ → ℤ → StockBuy D
  new_corporate_action symbol quantity cost conclusion_time execution_date = record {
    symbol = symbol;
    original_symbol = symbol;
    quantity = quantity;
    type_ = StockSource.corporate_action;
    cost = cost;
    conclusion_time = conclusion_time;
    execution_date = execution_date;
    out_of_order_execution = true;
    trade_id = none;
    sold = nought;
  }

  unfoldable pub is_sold : StockBuy D → Bool
  is_sold buy = eqd buy.sold buy.quantity

  unfoldable pub get_unsold : StockBuy D → D
  get_unsold buy = buy.quantity ⊖ buy.sold

  -- The cost and the source of a part of the lot.
  unfoldable pub part_of_cost : D → D → PurchaseCost D → PurchaseCost D
  part_of_cost quantity whole cost =
      let (fraction0, fraction1) = cost.fraction in
      record cost { fraction = (fraction0 ⊗ quantity, fraction1 ⊗ whole) }

  unfoldable pub part_of_source : D → D → StockSource D → StockSource D
  part_of_source quantity whole (StockSource.trade price volume commission) =
      StockSource.trade price (record price { amount = price.amount ⊗ quantity })
        (record commission { amount = commission.amount ⊘ whole ⊗ quantity })
  part_of_source quantity whole StockSource.corporate_action = StockSource.corporate_action
  part_of_source quantity whole StockSource.grant = StockSource.grant

  unfoldable pub source_of : StockBuy D → D → D → StockSellSource D
  unfolding part_of_cost part_of_source
  source_of buy quantity multiplier =
      let whole = eqd quantity buy.quantity in
      record {
        original_symbol = buy.original_symbol;
        quantity = quantity;
        multiplier = multiplier;
        type_ = if whole then buy.type_ else part_of_source quantity buy.quantity buy.type_;
        cost = if whole then buy.cost else map (part_of_cost quantity buy.quantity) buy.cost;
        conclusion_time = buy.conclusion_time;
        execution_date = buy.execution_date;
        trade_id = buy.trade_id;
      }

  -- The lot after the sale, and what the sale takes of it.
  unfoldable pub sell : StockBuy D → D → D → Result TradeError (StockBuy D × StockSellSource D)
  unfolding get_unsold source_of
  sell buy quantity multiplier =
      if led quantity (get_unsold buy)
      then ok (record buy { sold = buy.sold ⊕ quantity }, source_of buy quantity multiplier)
      else err panic

  -- `StockSell::new_trade` and `StockSell::new_corporate_action`.
  unfoldable pub new_sell :
      String → D → Cash String D → Cash String D → Cash String D → ℤ → ℤ → Bool → StockSell D
  new_sell symbol quantity price volume commission conclusion_time execution_date emulation =
      record {
        symbol = symbol;
        original_symbol = symbol;
        quantity = quantity;
        type_ = StockSellType.trade price volume commission;
        conclusion_time = conclusion_time;
        execution_date = execution_date;
        out_of_order_execution = false;
        trade_id = none;
        emulation = emulation;
        sources = [];
      }

  unfoldable pub new_corporate_sell : String → D → ℤ → ℤ → StockSell D
  new_corporate_sell symbol quantity conclusion_time execution_date = record {
    symbol = symbol;
    original_symbol = symbol;
    quantity = quantity;
    type_ = StockSellType.corporate_action;
    conclusion_time = conclusion_time;
    execution_date = execution_date;
    out_of_order_execution = true;
    trade_id = none;
    emulation = false;
    sources = [];
  }

  unfoldable pub is_processed : StockSell D → Bool
  unfolding is_not_empty
  is_processed sale = is_not_empty sale.sources

  -- What the sources of a sale come to, in what the sale counts.
  unfoldable pub covered : List (StockSellSource D) → D
  covered sources = sum_from nought (map (λ source. source.multiplier ⊗ source.quantity) sources)

  unfoldable pub process : StockSell D → List (StockSellSource D) → Result TradeError (StockSell D)
  unfolding is_processed covered is_not_empty
  process sale sources =
      if not (is_processed sale) && eqd (covered sources) sale.quantity
      then ok (record sale { sources = sources })
      else err panic
